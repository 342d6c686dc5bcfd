-- ===== src/ZeroConf/Signals/Orphaned.antt =====
-- What the death of a module leaves running: ModuleZeroConfig.cpp starts its services once more.
use qt_sss_shttps.Common.{
  ℕ, ◌==◌, ◌≡◌, refl, ◌∙◌, ap, sym, Bool, true, false, ◌&&◌, ◌||◌, Option, none, some, List, [],
  ◌∷◌, arith, Bool-cases, inl, inr, subst, ==_iff,
}
use qt_sss_shttps.Text.{Text}
use qt_sss_shttps.Conf.{Conf}
use qt_sss_shttps.Conf.Settings.{module_uid}
use qt_sss_shttps.Module.{is_active_module, die_module}
use qt_sss_shttps.ZeroConf.{AppNames, Descriptor, is_published}
use qt_sss_shttps.ZeroConf.Announcer.{
  Announcement, Announcer, is_owned, is_alive, without_owner, clear_pointers,
}
use qt_sss_shttps.ZeroConf.Signals.{
  deliver_signals, signals_of, has_number, points, sound_one, sound, IsSound,
}
use qt_sss_shttps.ZeroConf.Signals.Forgotten.{deliver_signals-die, IsForgotten, settled-IsForgotten}
use qt_sss_shttps.ZeroConf.Signals.Sound.{on_stop_services-Settles, without_owner-points}
use qt_sss_shttps.ZeroConf.Signals.Served.{is_served, AreServed, on_start_services-AreServed}

-- A descriptor of that module is to be published.
unfoldable pub offers : Text → List Descriptor → Bool
offers uid [] = false
offers uid (d ∷ ds) = (is_owned uid d && is_published d) || offers uid ds

offers-cleared :
    (uid : Text) (ds : List Descriptor) → offers uid (clear_pointers ds) ≡ offers uid ds
unfolding offers clear_pointers is_published
offers-cleared uid [] = refl
offers-cleared uid (d ∷ ds) = ground (arith, offers-cleared uid ds)

offers-same :
    (uid : Text) (ds es : List Descriptor)
    → clear_pointers ds ≡ clear_pointers es
    → offers uid es ≡ true
    → offers uid ds ≡ true
offers-same uid ds es e h =
    sym (offers-cleared uid ds) ∙ (ap (offers uid) e ∙ (offers-cleared uid es ∙ h))

-- A service of one of the descriptors, which is that of none of those that are left.
record IsOrphan (uid : Text) (ds : List Descriptor) (xs : List (ℕ × Announcement)) (m : ℕ)
    : Type 0 where
  pub was_theirs : points m ds ≡ true
  pub lives : is_alive m xs ≡ true
  pub unowned : points m (without_owner uid ds) ≡ false

first-IsOrphan :
    (o : Option ℕ) (uid : Text) (d : Descriptor) (ds : List Descriptor)
    (xs : List (ℕ × Announcement)) (k : ℕ)
    → d.announced ≡ o
    → (is_owned uid d && is_published d) ≡ true
    → is_served uid d ≡ true
    → sound (d ∷ ds) xs k ≡ true
    → (m : ℕ) × IsOrphan uid (d ∷ ds) xs m
unfolding points sound sound_one without_owner
first-IsOrphan none uid d ds xs k e f g h = absurd (ground (arith, e, f, g))
first-IsOrphan (some m) uid d ds xs k e f g h = (
  m,
  record {
    was_theirs = ground (arith, e);
    lives = ground (arith, e, h);
    unowned = ground (arith, e, f, h, without_owner-points uid m ds);
  },
)

sound_one-other :
    (m : ℕ) (o : Option ℕ) (ds : List Descriptor) (xs : List (ℕ × Announcement)) (k : ℕ)
    → sound_one o ds xs k ≡ true
    → points m ds ≡ true
    → has_number m o ≡ false
unfolding sound_one
sound_one-other m none ds xs k h p = refl
sound_one-other m (some n) ds xs k h p = elim (Bool-cases (m == n)) [
  | inl e ↦ ground (arith, h, subst (λ i. points i ds ≡ true) ((==_iff m n).0 e) p)
  | inr e ↦ e
]

next-IsOrphan :
    (uid : Text) (d : Descriptor) (ds : List Descriptor) (xs : List (ℕ × Announcement)) (k m : ℕ)
    → sound (d ∷ ds) xs k ≡ true
    → IsOrphan uid ds xs m
    → IsOrphan uid (d ∷ ds) xs m
unfolding points sound without_owner
next-IsOrphan uid d ds xs k m h i = record {
  was_theirs = ground (arith, i.was_theirs);
  lives = i.lives;
  unowned = ground (arith, h, i.unowned, i.was_theirs, sound_one-other m d.announced ds xs k);
}

find-IsOrphan :
    (uid : Text) (ds : List Descriptor) (xs : List (ℕ × Announcement)) (k : ℕ)
    → offers uid ds ≡ true
    → AreServed uid ds
    → sound ds xs k ≡ true
    → (m : ℕ) × IsOrphan uid ds xs m
unfolding offers sound
find-IsOrphan uid [] xs k f s h = absurd (cc f)
find-IsOrphan uid (d ∷ ds) xs k f (g, s) h = elim (Bool-cases (is_owned uid d && is_published d)) [
  | inl e ↦ first-IsOrphan d.announced uid d ds xs k refl e g h
  | inr e ↦
      let (m, i) = find-IsOrphan uid ds xs k (ground (arith, e, f)) s (ground (arith, h)) in
      (m, next-IsOrphan uid d ds xs k m h i)
]

-- The signals of the death of a module, where the module that announces services is active, every
-- pointer of a descriptor is to a living service of its own, and a descriptor of the module is to
-- be published: all calls return; the descriptors are those that were there, in order, without
-- those of the module, and every pointer is to a living service of its own again; but there is a
-- living service that no descriptor has.
pub die_module-orphans :
    (n : AppNames) (c : Conf) (a : Announcer)
    → IsSound a
    → is_active_module a.conf ≡ true
    → offers (module_uid c) a.descriptors ≡ true
    → (b : Announcer) × ((deliver_signals n (signals_of (module_uid c) (die_module c)) a ≡ some b)
        × (IsForgotten (module_uid c) a b
            × ((m : ℕ) × ((is_alive m b.alive ≡ true) × (points m b.descriptors ≡ false)))))
die_module-orphans n c a h e o =
    let uid = module_uid c in
    let (b, (f, s)) = on_stop_services-Settles uid a h in
    let (d, (g, (t, served))) =
      on_start_services-AreServed uid b s.is_sound (ap is_active_module s.same_conf ∙ e) in
    let (m, i) =
      find-IsOrphan uid d.descriptors d.alive d.created
        (offers-same uid d.descriptors a.descriptors (t.same_descriptors ∙ s.same_descriptors) o)
        served t.is_sound in
    (
      _,
      (
        deliver_signals-die n c a b d f g,
        (settled-IsForgotten uid a b d s t, (m, (i.lives, i.unowned))),
      ),
    )
