-- ===== src/ZeroConf/Signals/Turned.antt =====
-- The loops of ModuleZeroConfig.cpp over the descriptors, which stop or publish services.
use qt_sss_shttps.Common.{
  ℕ, ◌+◌, ◌≡◌, refl, ap, ◌∙◌, Bool, true, false, Option, none, some, List, [], ◌∷◌, ◌++◌, arith,
  ltb, if◌then◌else◌, if-both, not,
}
use qt_sss_shttps.Text.{Text}
use qt_sss_shttps.ZeroConf.{Descriptor, is_published}
use qt_sss_shttps.ZeroConf.Announcer.{
  Announcer, is_owned, is_alive, delete_object, announcement, publish, publish_each, remove_number,
  withdraw, clear_pointers, stop_one, cons_stopped, stop_owned,
}
use qt_sss_shttps.ZeroConf.Signals.{points, sound_one, sound}
use qt_sss_shttps.ZeroConf.Signals.Objects.{
  deleted-other, is_alive-grown, is_alive-newest, sound-deleted, sound-grown, sound-fresh,
}

-- A service that lives, has a number that was given out, and is that of none of the descriptors.
abbrev pub IsSpare : ℕ → List Descriptor → Announcer → Type 0
IsSpare m ds a = (points m ds ≡ false) × ((is_alive m a.alive ≡ true) × (ltb m a.created ≡ true))

-- What a loop over the descriptors makes of them and of the module.
pub record IsTurned (ds : List Descriptor) (a : Announcer) (es : List Descriptor) (b : Announcer)
    : Type 0 where
  pub is_sound : sound es b.alive b.created ≡ true
  pub spare : (m : ℕ) → IsSpare m ds a → IsSpare m es b
  pub same_conf : b.conf ≡ a.conf
  pub same_descriptors : clear_pointers es ≡ clear_pointers ds

nil-IsTurned : (a : Announcer) → IsTurned [] a [] a
unfolding sound
nil-IsTurned a = record {
  is_sound = refl;
  spare = λ m. λ s. s;
  same_conf = refl;
  same_descriptors = refl;
}

-- The step that changes the first descriptor at most.
stays-IsTurned :
    (ds : List Descriptor) (a : Announcer) → sound ds a.alive a.created ≡ true → IsTurned ds a ds a
stays-IsTurned ds a h = record {
  is_sound = h;
  spare = λ m. λ s. s;
  same_conf = refl;
  same_descriptors = refl;
}

pub sound-tail :
    (d : Descriptor) (ds : List Descriptor) (a : Announcer)
    → sound (d ∷ ds) a.alive a.created ≡ true
    → sound ds a.alive a.created ≡ true
unfolding sound
sound-tail d ds a h = ground (arith, h)

pub sound-first :
    (n : ℕ) (d : Descriptor) (ds : List Descriptor) (a : Announcer)
    → d.announced ≡ some n
    → sound (d ∷ ds) a.alive a.created ≡ true
    → IsSpare n ds a
unfolding sound sound_one
sound-first n d ds a e h = (ground (arith, e, h), (ground (arith, e, h), ground (arith, e, h)))

sound-cons :
    (o : Option ℕ) (d : Descriptor) (ds es : List Descriptor) (b c : Announcer)
    → d.announced ≡ o
    → sound (d ∷ ds) b.alive b.created ≡ true
    → IsTurned ds b es c
    → sound (d ∷ es) c.alive c.created ≡ true
unfolding sound sound_one
sound-cons none d ds es b c e h t = ground (arith, e, t.is_sound)
sound-cons (some n) d ds es b c e h t =
    let (x, (y, z)) = t.spare n (sound-first n d ds b e h) in ground (arith, e, t.is_sound, x, y, z)

IsSpare-cons :
    (m : ℕ) (d : Descriptor) (ds es : List Descriptor) (b c : Announcer)
    → IsTurned ds b es c
    → IsSpare m (d ∷ ds) b
    → IsSpare m (d ∷ es) c
unfolding points
IsSpare-cons m d ds es b c t (x, (y, z)) =
    let (u, (v, w)) = t.spare m (ground (arith, x), (y, z)) in (ground (arith, x, u), (v, w))

-- A step for the first descriptor, and the loop over the others.
cons-IsTurned :
    (d : Descriptor) (a : Announcer) (e : Descriptor) (b : Announcer) (ds es : List Descriptor)
    (c : Announcer)
    → IsTurned (d ∷ ds) a (e ∷ ds) b
    → IsTurned ds b es c
    → IsTurned (d ∷ ds) a (e ∷ es) c
unfolding clear_pointers
cons-IsTurned d a e b ds es c s t = record {
  is_sound = sound-cons e.announced e ds es b c refl s.is_sound t;
  spare = λ m. λ x. IsSpare-cons m e ds es b c t (s.spare m x);
  same_conf = t.same_conf ∙ s.same_conf;
  same_descriptors =
      ap (λ ts. record e { announced = none } ∷ ts) t.same_descriptors ∙ s.same_descriptors;
}

-- `stopServicePublish` and `delete` of the service of the first descriptor.
abbrev withdrawn : ℕ → Announcer → Announcer
withdrawn n a = record a { services = remove_number n a.services; alive = delete_object n a.alive }

withdrawn-IsTurned :
    (n : ℕ) (d : Descriptor) (ds : List Descriptor) (a : Announcer)
    → d.announced ≡ some n
    → sound (d ∷ ds) a.alive a.created ≡ true
    → IsTurned (d ∷ ds) a (record d { announced = none } ∷ ds) (withdrawn n a)
unfolding sound sound_one points clear_pointers
withdrawn-IsTurned n d ds a e h =
    let (x, (y, z)) = sound-first n d ds a e h in
    record {
      is_sound = sound-deleted n ds a.alive a.created x (sound-tail d ds a h);
      spare = λ m. λ (u, (v, w)).
          (ground (arith, u), (ground (arith, e, u, v, deleted-other m n a.alive), w));
      same_conf = refl;
      same_descriptors = refl;
    }

-- What a loop, or a step of it, that may call an object yields.
stop_one-by :
    (o : Option ℕ) (d : Descriptor) (ds : List Descriptor) (a : Announcer)
    → d.announced ≡ o
    → sound (d ∷ ds) a.alive a.created ≡ true
    → (r : Descriptor × Announcer) × ((stop_one d a ≡ some r) × IsTurned (d ∷ ds) a (r.0 ∷ ds) r.1)
unfolding stop_one withdraw
stop_one-by none d ds a e h = ((d, a), (ground (arith, e), stays-IsTurned (d ∷ ds) a h))
stop_one-by (some n) d ds a e h =
    let (x, (y, z)) = sound-first n d ds a e h in
    (
      (record d { announced = none }, withdrawn n a),
      (ground (arith, e, y), withdrawn-IsTurned n d ds a e h),
    )

stop_first :
    (uid : Text) (d : Descriptor) (ds : List Descriptor) (a : Announcer)
    → sound (d ∷ ds) a.alive a.created ≡ true
    → (r : Descriptor × Announcer) × (((if is_owned uid d then stop_one d a else some (d, a))
          ≡ some r)
        × IsTurned (d ∷ ds) a (r.0 ∷ ds) r.1)
stop_first uid d ds a h =
    if-both
      (λ o. (r : Descriptor × Announcer) × ((o ≡ some r) × IsTurned (d ∷ ds) a (r.0 ∷ ds) r.1))
      (is_owned uid d) (stop_one d a) (some (d, a)) (stop_one-by d.announced d ds a refl h)
      ((d, a), (refl, stays-IsTurned (d ∷ ds) a h))

-- The loop of `onStopZeroConfServices`.
pub stop_owned-IsTurned :
    (uid : Text) (ds : List Descriptor) (a : Announcer)
    → sound ds a.alive a.created ≡ true
    → (r : List Descriptor × Announcer) × ((stop_owned uid ds a ≡ some r) × IsTurned ds a r.0 r.1)
unfolding stop_owned cons_stopped
stop_owned-IsTurned uid [] a h = (([], a), (refl, nil-IsTurned a))
stop_owned-IsTurned uid (d ∷ ds) a h =
    let ((e, b), (p, s)) = stop_first uid d ds a h in
    let ((es, c), (q, t)) = stop_owned-IsTurned uid ds b (sound-tail e ds b s.is_sound) in
    ((e ∷ es, c), (rw (p, stop_owned, q, cons_stopped) refl, cons-IsTurned d a e b ds es c s t))

-- `publish` of the first descriptor.
abbrev published : Descriptor → Announcer → Descriptor × Announcer
published d a = (
  record d { announced = some a.created },
  record a {
    services = a.services ++ (a.created ∷ []);
    created = a.created + 1;
    alive = a.alive ++ ((a.created, announcement d) ∷ []);
  },
)

published-IsTurned :
    (d : Descriptor) (ds : List Descriptor) (a : Announcer)
    → sound (d ∷ ds) a.alive a.created ≡ true
    → IsTurned (d ∷ ds) a ((published d a).0 ∷ ds) (published d a).1
unfolding sound sound_one points clear_pointers
published-IsTurned d ds a h = record {
  is_sound = ground (
    arith,
    h,
    is_alive-newest a.created (announcement d) a.alive,
    sound-grown (announcement d) ds a.alive a.created,
    sound-fresh ds a.alive a.created,
  );
  spare = λ m. λ (x, (y, z)). (
    ground (arith, x, z),
    (is_alive-grown m a.created (announcement d) a.alive y, ground (arith, z)),
  );
  same_conf = refl;
  same_descriptors = refl;
}

pub publish-IsTurned :
    (d : Descriptor) (ds : List Descriptor) (a : Announcer)
    → sound (d ∷ ds) a.alive a.created ≡ true
    → IsTurned (d ∷ ds) a ((publish d a).0 ∷ ds) (publish d a).1
unfolding publish
publish-IsTurned d ds a h =
    if-both (λ (r : Descriptor × Announcer). IsTurned (d ∷ ds) a (r.0 ∷ ds) r.1) (not d.is_fine)
      (d, a) _ (stays-IsTurned (d ∷ ds) a h)
      (if-both (λ (r : Descriptor × Announcer). IsTurned (d ∷ ds) a (r.0 ∷ ds) r.1)
        (not (is_published d)) (d, a) (published d a) (stays-IsTurned (d ∷ ds) a h)
        (published-IsTurned d ds a h))

-- The loops that publish.
pub publish_each-IsTurned :
    (chosen : Descriptor → Bool) (ds : List Descriptor) (a : Announcer)
    → sound ds a.alive a.created ≡ true
    → IsTurned ds a (publish_each chosen ds a).0 (publish_each chosen ds a).1
unfolding publish_each
publish_each-IsTurned chosen [] a h = nil-IsTurned a
publish_each-IsTurned chosen (d ∷ ds) a h =
    let r = if chosen d then publish d a else (d, a) in
    let s =
      if-both (λ (r : Descriptor × Announcer). IsTurned (d ∷ ds) a (r.0 ∷ ds) r.1) (chosen d)
        (publish d a) (d, a) (publish-IsTurned d ds a h) (stays-IsTurned (d ∷ ds) a h) in
    cons-IsTurned d a r.0 r.1 ds (publish_each chosen ds r.1).0 (publish_each chosen ds r.1).1 s
      (publish_each-IsTurned chosen ds r.1 (sound-tail r.0 ds r.1 s.is_sound))
