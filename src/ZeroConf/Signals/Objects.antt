-- ===== src/ZeroConf/Signals/Objects.antt =====
-- The services that live, as services are made and deleted.
use qt_sss_shttps.Common.{
  ◌||◌, ℕ, ◌+◌, ◌==◌, ◌≡◌, refl, true, false, Option, none, some, List, [], ◌∷◌, ◌++◌, arith,
}
use qt_sss_shttps.ZeroConf.{Descriptor}
use qt_sss_shttps.ZeroConf.Announcer.{Announcement, is_alive, delete_object}
use qt_sss_shttps.ZeroConf.Signals.{has_number, points, sound_one, sound}

abbrev Objects : Type 0
Objects = List (ℕ × Announcement)

pub deleted-other :
    (m n : ℕ) (xs : Objects) → (m == n) ≡ false → is_alive m (delete_object n xs) ≡ is_alive m xs
unfolding is_alive delete_object
deleted-other m n [] e = refl
deleted-other m n ((k, x) ∷ xs) e = ground (arith, deleted-other m n xs e, e)

pub is_alive-grown :
    (m n : ℕ) (x : Announcement) (xs : Objects)
    → is_alive m xs ≡ true
    → is_alive m (xs ++ ((n, x) ∷ [])) ≡ true
unfolding is_alive
is_alive-grown m n x [] e = absurd (cc e)
is_alive-grown m n x ((k, y) ∷ xs) e = ground (arith, is_alive-grown m n x xs, e)

pub is_alive-newest :
    (n : ℕ) (x : Announcement) (xs : Objects) → is_alive n (xs ++ ((n, x) ∷ [])) ≡ true
unfolding is_alive
is_alive-newest n x [] = ground arith
is_alive-newest n x ((k, y) ∷ xs) = ground (arith, is_alive-newest n x xs)

sound_one-deleted :
    (n : ℕ) (o : Option ℕ) (ds : List Descriptor) (xs : Objects) (k : ℕ)
    → has_number n o ≡ false
    → sound_one o ds xs k ≡ true
    → sound_one o ds (delete_object n xs) k ≡ true
unfolding sound_one
sound_one-deleted n none ds xs k e h = refl
sound_one-deleted n (some m) ds xs k e h = ground (arith, deleted-other m n xs, e, h)

pub sound-deleted :
    (n : ℕ) (ds : List Descriptor) (xs : Objects) (k : ℕ)
    → points n ds ≡ false
    → sound ds xs k ≡ true
    → sound ds (delete_object n xs) k ≡ true
unfolding points sound
sound-deleted n [] xs k e h = refl
sound-deleted n (d ∷ ds) xs k e h =
    ground (arith, sound_one-deleted n d.announced ds xs k, sound-deleted n ds xs k, e, h)

sound_one-grown :
    (x : Announcement) (o : Option ℕ) (ds : List Descriptor) (xs : Objects) (k : ℕ)
    → sound_one o ds xs k ≡ true
    → sound_one o ds (xs ++ ((k, x) ∷ [])) (k + 1) ≡ true
unfolding sound_one
sound_one-grown x none ds xs k h = refl
sound_one-grown x (some m) ds xs k h = ground (arith, is_alive-grown m k x xs, h)

pub sound-grown :
    (x : Announcement) (ds : List Descriptor) (xs : Objects) (k : ℕ)
    → sound ds xs k ≡ true
    → sound ds (xs ++ ((k, x) ∷ [])) (k + 1) ≡ true
unfolding sound
sound-grown x [] xs k h = refl
sound-grown x (d ∷ ds) xs k h =
    ground (arith, sound_one-grown x d.announced ds xs k, sound-grown x ds xs k, h)

sound_one-fresh :
    (o : Option ℕ) (ds : List Descriptor) (xs : Objects) (k : ℕ)
    → sound_one o ds xs k ≡ true
    → has_number k o ≡ false
unfolding sound_one
sound_one-fresh none ds xs k h = refl
sound_one-fresh (some m) ds xs k h = ground (arith, h)

-- The number of the next service is that of no descriptor.
pub sound-fresh :
    (ds : List Descriptor) (xs : Objects) (k : ℕ) → sound ds xs k ≡ true → points k ds ≡ false
unfolding sound points
sound-fresh [] xs k h = refl
sound-fresh (d ∷ ds) xs k h =
    ground (arith, sound_one-fresh d.announced ds xs k, sound-fresh ds xs k, h)

points-append :
    (m : ℕ) (ds : List Descriptor) (d : Descriptor)
    → points m (ds ++ (d ∷ [])) ≡ (points m ds || has_number m d.announced)
unfolding points
points-append m [] d = ground arith
points-append m (x ∷ ds) d = ground (arith, points-append m ds d)

sound_one-append :
    (p o : Option ℕ) (ds : List Descriptor) (d e : Descriptor) (xs : Objects) (k : ℕ)
    → d.announced ≡ o
    → e.announced ≡ p
    → sound_one p ds xs k ≡ true
    → sound_one o (e ∷ ds) xs k ≡ true
    → sound_one p (ds ++ (d ∷ [])) xs k ≡ true
unfolding sound_one points
sound_one-append none o ds d e xs k f g h i = refl
sound_one-append (some m) none ds d e xs k f g h i = ground (arith, points-append m ds d, f, h)
sound_one-append (some m) (some n) ds d e xs k f g h i =
    ground (arith, points-append m ds d, f, g, h, i)

sound_one-tail :
    (o : Option ℕ) (e : Descriptor) (ds : List Descriptor) (xs : Objects) (k : ℕ)
    → sound_one o (e ∷ ds) xs k ≡ true
    → sound_one o ds xs k ≡ true
unfolding sound_one points
sound_one-tail none e ds xs k h = refl
sound_one-tail (some n) e ds xs k h = ground (arith, h)

sound-append :
    (ds : List Descriptor) (d : Descriptor) (xs : Objects) (k : ℕ)
    → sound ds xs k ≡ true
    → sound_one d.announced ds xs k ≡ true
    → sound (ds ++ (d ∷ [])) xs k ≡ true
unfolding sound
sound-append [] d xs k h i = ground (arith, i)
sound-append (e ∷ ds) d xs k h i = ground (
  arith,
  h,
  i,
  sound_one-append e.announced d.announced ds d e xs k refl refl,
  sound_one-tail d.announced e ds xs k,
  sound-append ds d xs k,
)

-- The first descriptor may as well be the last.
pub sound-moved :
    (d : Descriptor) (ds : List Descriptor) (xs : Objects) (k : ℕ)
    → sound (d ∷ ds) xs k ≡ true
    → sound (ds ++ (d ∷ [])) xs k ≡ true
unfolding sound
sound-moved d ds xs k h = sound-append ds d xs k (ground (arith, h)) (ground (arith, h))
