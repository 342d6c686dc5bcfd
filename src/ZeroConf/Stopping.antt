-- ===== src/ZeroConf/Stopping.antt =====
-- The stop of the announcements: what it calls on which object.
use qt_sss_shttps.Common.{
  ℕ, ◌≡◌, refl, ap, ◌∙◌, sym, false, none, some, List, [], ◌∷◌, arith, Option-cases, inl, inr,
  subst,
}
use mathlib.Core.Option.{some_inj}
use qt_sss_shttps.Text.{Text}
use qt_sss_shttps.Conf.Settings.{module_uid}
use qt_sss_shttps.ZeroConf.{Descriptor}
use qt_sss_shttps.ZeroConf.Announcer.{
  Announcer, is_alive, withdraw, stop_one, cons_stopped, stop_owned, put_descriptors,
  on_stop_services, clear_pointers, withdraw_each, stop_all, stop_announcer,
}
use qt_sss_shttps.ZeroConf.Withdrawing.{withdraw_each-dead, withdraw_each-IsWithdrawn}

-- After a stop: the list of services still has an object that is deleted, unless it was empty.
record IsStale (b : Announcer) : Type 0 where
  pub descriptors : List Descriptor
  pub cleared : b.descriptors ≡ clear_pointers descriptors
  pub first_dead : (n : ℕ) (ns : List ℕ) → b.services ≡ n ∷ ns → is_alive n b.alive ≡ false

cleared_announcer : Announcer → Announcer
cleared_announcer a = record a { descriptors = clear_pointers a.descriptors }

stop_all-cases :
    (a b : Announcer)
    → stop_all a ≡ some b
    → (c : Announcer) × ((withdraw_each a.services (cleared_announcer a) ≡ some c)
        × (record c { running = false } ≡ b))
unfolding stop_all cleared_announcer
stop_all-cases a b h = elim (Option-cases (withdraw_each a.services (cleared_announcer a))) [
  | inl e ↦ absurd (let d = rw (e, stop_all) at h in cc d)
  | inr (c, e) ↦ (c, (e, some_inj.0 (rw (e, stop_all) at h)))
]

dead_by :
    (a c : Announcer) (n : ℕ) (ns : List ℕ)
    → withdraw_each a.services (cleared_announcer a) ≡ some c
    → c.services ≡ n ∷ ns
    → is_alive n c.alive ≡ false
unfolding cleared_announcer
dead_by a c n ns e f =
    let same = (withdraw_each-IsWithdrawn a.services (cleared_announcer a) c e).same_services in
    withdraw_each-dead n ns (cleared_announcer a) c
      (subst (λ t. withdraw_each t (cleared_announcer a) ≡ some c) (sym same ∙ f) e)

stop_all-IsStale : (a b : Announcer) → stop_all a ≡ some b → IsStale b
unfolding cleared_announcer
stop_all-IsStale a b h =
    let (c, (e, f)) = stop_all-cases a b h in
    subst IsStale f (record {
      descriptors = a.descriptors;
      cleared = (withdraw_each-IsWithdrawn a.services (cleared_announcer a) c e).same_descriptors;
      first_dead = λ n ns. λ g. dead_by a c n ns e g;
    })

stop_announcer-IsStale : (a b : Announcer) → stop_announcer a ≡ some b → IsStale b
unfolding stop_announcer
stop_announcer-IsStale a b h = elim (Option-cases (on_stop_services (module_uid a.conf) a)) [
  | inl e ↦ absurd (let d = rw (e, stop_announcer) at h in cc d)
  | inr (c, e) ↦ stop_all-IsStale c b (rw (e, stop_announcer) at h)
]

stop_owned-cleared :
    (uid : Text) (ds : List Descriptor) (a : Announcer)
    → stop_owned uid (clear_pointers ds) a ≡ some (clear_pointers ds, a)
unfolding stop_owned clear_pointers stop_one cons_stopped
stop_owned-cleared uid [] a = refl
stop_owned-cleared uid (d ∷ ds) a = ground (arith, stop_owned-cleared uid ds a)

on_stop_services-IsStale :
    (uid : Text) (b : Announcer) → IsStale b → on_stop_services uid b ≡ some b
unfolding on_stop_services put_descriptors
on_stop_services-IsStale uid b s = ap put_descriptors (
    subst (λ ds. stop_owned uid ds b ≡ some (ds, b)) (sym s.cleared)
      (stop_owned-cleared uid s.descriptors b))

withdraw_each-fails :
    (n : ℕ) (ns : List ℕ) (a : Announcer)
    → is_alive n a.alive ≡ false
    → withdraw_each (n ∷ ns) a ≡ none
unfolding withdraw_each withdraw
withdraw_each-fails n ns a e = rw (e, withdraw_each, withdraw) refl

stop_all-fails :
    (b : Announcer) (n : ℕ) (ns : List ℕ)
    → b.services ≡ n ∷ ns
    → is_alive n b.alive ≡ false
    → stop_all b ≡ none
unfolding stop_all
stop_all-fails b n ns s e =
    let f =
      ap (λ t. withdraw_each t (record b { descriptors = clear_pointers b.descriptors })) s
      ∙ withdraw_each-fails n ns (record b { descriptors = clear_pointers b.descriptors }) e in
    rw (f, stop_all) refl

-- A stop that leaves a service in the list of the services is the last one that returns: the next
-- stop, as die makes it, calls an object that was deleted.
pub stop_announcer-again :
    (a b : Announcer) (n : ℕ) (ns : List ℕ)
    → stop_announcer a ≡ some b
    → b.services ≡ n ∷ ns
    → stop_announcer b ≡ none
unfolding stop_announcer
stop_announcer-again a b n ns h s =
    let stale = stop_announcer-IsStale a b h in
    rw (on_stop_services-IsStale (module_uid b.conf) b stale, stop_announcer)
      (stop_all-fails b n ns s (stale.first_dead n ns s))
