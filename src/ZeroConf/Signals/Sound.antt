-- ===== src/ZeroConf/Signals/Sound.antt =====
-- Signals of the modules never reach a service that was deleted.
use qt_sss_shttps.Common.{
  ℕ, ◌≡◌, Bool, refl, ◌∙◌, true, false, not, Option, none, some, List, [], ◌∷◌, ◌++◌, arith,
  if-both, subst, sym,
}
use qt_sss_shttps.Text.{Text}
use qt_sss_shttps.Json.{Fields}
use qt_sss_shttps.Module.{
  Effect, register_service, unregister_services, start_services, stop_services, bus_message,
  is_active_module,
}
use qt_sss_shttps.ZeroConf.{AppNames, Descriptor, new_descriptor}
use qt_sss_shttps.ZeroConf.Announcer.{
  Announcement, Announcer, is_owned, publish, add_published, publish_chosen, put_descriptors,
  on_stop_services, on_start_services, on_add_descriptor, without_owner, clear_pointers,
  on_remove_descriptors,
}
use qt_sss_shttps.ZeroConf.Signals.{
  deliver_signal, deliver_signals, points, sound_one, sound, IsSound,
}
use qt_sss_shttps.ZeroConf.Signals.Objects.{sound-moved}
use qt_sss_shttps.ZeroConf.Signals.Turned.{
  publish-IsTurned, publish_each-IsTurned, stop_owned-IsTurned,
}

-- A call returns, and leaves a sound module with the same configuration.
abbrev pub Returns : Announcer → Option Announcer → Type 0
Returns a o = (b : Announcer) × ((o ≡ some b) × (IsSound b × (b.conf ≡ a.conf)))

-- What the start and the stop of services leave: other pointers at most.
pub record IsSettled (a b : Announcer) : Type 0 where
  pub is_sound : IsSound b
  pub same_conf : b.conf ≡ a.conf
  pub same_descriptors : clear_pointers b.descriptors ≡ clear_pointers a.descriptors

abbrev pub Settles : Announcer → Option Announcer → Type 0
Settles a o = (b : Announcer) × ((o ≡ some b) × IsSettled a b)

Settles-Returns : (a : Announcer) (o : Option Announcer) → Settles a o → Returns a o
Settles-Returns a o (b, (e, s)) = (b, (e, (s.is_sound, s.same_conf)))

pub IsSettled-trans : (a b c : Announcer) → IsSettled a b → IsSettled b c → IsSettled a c
IsSettled-trans a b c s t = record {
  is_sound = t.is_sound;
  same_conf = t.same_conf ∙ s.same_conf;
  same_descriptors = t.same_descriptors ∙ s.same_descriptors;
}

pub on_stop_services-Settles :
    (uid : Text) (a : Announcer) → IsSound a → Settles a (on_stop_services uid a)
unfolding on_stop_services put_descriptors
on_stop_services-Settles uid a h =
    let ((ds, b), (e, t)) = stop_owned-IsTurned uid a.descriptors a h in
    (
      record b { descriptors = ds },
      (
        rw (e, on_stop_services) refl,
        record {
          is_sound = t.is_sound;
          same_conf = t.same_conf;
          same_descriptors = t.same_descriptors;
        },
      ),
    )

pub publish_chosen-IsSettled :
    (chosen : Descriptor → Bool) (a : Announcer) → IsSound a → IsSettled a (publish_chosen chosen a)
unfolding publish_chosen
publish_chosen-IsSettled chosen a h =
    let t = publish_each-IsTurned chosen a.descriptors a h in
    record { is_sound = t.is_sound; same_conf = t.same_conf; same_descriptors = t.same_descriptors }

pub on_start_services-Settles :
    (uid : Text) (a : Announcer) → IsSound a → Settles a (on_start_services uid a)
unfolding on_start_services
on_start_services-Settles uid a h =
    if-both (Settles a) (not (is_active_module a.conf)) (some a) _
      (a, (refl, record { is_sound = h; same_conf = refl; same_descriptors = refl }))
      (let (b, (e, s)) = on_stop_services-Settles uid a h in
        (
          publish_chosen (is_owned uid) b,
          (
            rw e refl,
            IsSettled-trans a b (publish_chosen (is_owned uid) b) s
                (publish_chosen-IsSettled (is_owned uid) b s.is_sound),
          ),
        ))

-- A descriptor without a service, in front of the others.
sound-front :
    (d : Descriptor) (a : Announcer)
    → d.announced ≡ none
    → IsSound a
    → sound (d ∷ a.descriptors) a.alive a.created ≡ true
unfolding sound sound_one
sound-front d a e h = ground (arith, e, h)

pub publish-descriptors :
    (d : Descriptor) (a : Announcer) → (publish d a).1.descriptors ≡ a.descriptors
unfolding publish
publish-descriptors d a = ground arith

add_published-IsSound :
    (d : Descriptor) (a : Announcer)
    → d.announced ≡ none
    → IsSound a
    → IsSound (add_published (publish d a)) × ((add_published (publish d a)).conf ≡ a.conf)
unfolding add_published
add_published-IsSound d a e h =
    let t = publish-IsTurned d a.descriptors a (sound-front d a e h) in
    let b = (publish d a).1 in
    (
      subst (λ ds. sound (ds ++ ((publish d a).0 ∷ [])) b.alive b.created ≡ true)
          (sym (publish-descriptors d a))
          (sound-moved (publish d a).0 a.descriptors b.alive b.created t.is_sound),
      t.same_conf,
    )

pub on_add_descriptor-IsSound :
    (d : Descriptor) (a : Announcer)
    → d.announced ≡ none
    → IsSound a
    → IsSound (on_add_descriptor d a) × ((on_add_descriptor d a).conf ≡ a.conf)
unfolding on_add_descriptor
on_add_descriptor-IsSound d a e h =
    if-both (λ b. IsSound b × (b.conf ≡ a.conf)) (not d.is_fine) a _ (h, refl)
      (if-both (λ b. IsSound b × (b.conf ≡ a.conf)) a.running (add_published (publish d a)) _
        (add_published-IsSound d a e h)
        (sound-moved d a.descriptors a.alive a.created (sound-front d a e h), refl))

pub new_descriptor-announced :
    (n : AppNames) (uid : Text) (fs : Fields) → (new_descriptor n uid fs).announced ≡ none
unfolding new_descriptor
new_descriptor-announced n uid fs = ground arith

pub without_owner-points :
    (uid : Text) (m : ℕ) (ds : List Descriptor)
    → points m ds ≡ false
    → points m (without_owner uid ds) ≡ false
unfolding points without_owner
without_owner-points uid m [] e = refl
without_owner-points uid m (d ∷ ds) e = ground (arith, without_owner-points uid m ds, e)

without_owner-sound_one :
    (uid : Text) (o : Option ℕ) (ds : List Descriptor) (xs : List (ℕ × Announcement)) (k : ℕ)
    → sound_one o ds xs k ≡ true
    → sound_one o (without_owner uid ds) xs k ≡ true
unfolding sound_one
without_owner-sound_one uid none ds xs k h = refl
without_owner-sound_one uid (some m) ds xs k h = ground (arith, without_owner-points uid m ds, h)

pub without_owner-sound :
    (uid : Text) (ds : List Descriptor) (xs : List (ℕ × Announcement)) (k : ℕ)
    → sound ds xs k ≡ true
    → sound (without_owner uid ds) xs k ≡ true
unfolding sound without_owner
without_owner-sound uid [] xs k h = refl
without_owner-sound uid (d ∷ ds) xs k h =
    ground
      (arith, h, without_owner-sound uid ds xs k, without_owner-sound_one uid d.announced ds xs k)

pub on_remove_descriptors-Returns :
    (uid : Text) (a : Announcer) → IsSound a → Returns a (on_remove_descriptors uid a)
unfolding on_remove_descriptors
on_remove_descriptors-Returns uid a h =
    let (b, (e, s)) = on_start_services-Settles uid a h in
    (
      record b { descriptors = without_owner uid b.descriptors },
      (
        rw (e, on_remove_descriptors) refl,
        (without_owner-sound uid b.descriptors b.alive b.created s.is_sound, s.same_conf),
      ),
    )

deliver_signal-Returns :
    (n : AppNames) (sender : Text) (e : Effect) (a : Announcer)
    → IsSound a
    → Returns a (deliver_signal n sender e a)
unfolding deliver_signal
deliver_signal-Returns n sender (register_service fs) a h =
    let d = new_descriptor n sender fs in
    (_, (refl, on_add_descriptor-IsSound d a (new_descriptor-announced n sender fs) h))
deliver_signal-Returns n sender (unregister_services uid) a h =
    on_remove_descriptors-Returns uid a h
deliver_signal-Returns n sender (start_services uid) a h =
    Settles-Returns a _ (on_start_services-Settles uid a h)
deliver_signal-Returns n sender (stop_services uid) a h =
    Settles-Returns a _ (on_stop_services-Settles uid a h)
deliver_signal-Returns n sender (bus_message receivers message) a h = (a, (refl, (h, refl)))

-- Where every pointer of a descriptor is to a living service of its own, whatever signals modules
-- send, in whatever order: no call of the module that announces services reaches a service that
-- was deleted, and afterwards every pointer is to a living service of its own again.
pub deliver_signals-Returns :
    (n : AppNames) (es : List (Text × Effect)) (a : Announcer)
    → IsSound a
    → Returns a (deliver_signals n es a)
unfolding deliver_signals
deliver_signals-Returns n [] a h = (a, (refl, (h, refl)))
deliver_signals-Returns n ((sender, e) ∷ es) a h =
    let (b, (f, (s, c))) = deliver_signal-Returns n sender e a h in
    let (d, (g, (t, k))) = deliver_signals-Returns n es b s in
    (d, (rw (f, deliver_signals) g, (t, k ∙ c)))
