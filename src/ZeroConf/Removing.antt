-- ===== src/ZeroConf/Removing.antt =====
-- The services of one module: what is left of them when they are stopped or removed.
use qt_sss_shttps.Common.{
  ℕ, ◌≡◌, refl, Bool, true, false, ◌&&◌, Option, none, some, List, [], ◌∷◌, arith, All,
  if◌then◌else◌, Bool-cases, Option-cases, inl, inr, subst,
}
use mathlib.Core.Option.{some_inj}
use qt_sss_shttps.Text.{Text}
use qt_sss_shttps.ZeroConf.{Descriptor}
use qt_sss_shttps.ZeroConf.Announcer.{
  Announcer, is_owned, without_owner, withdraw, remove_number, stop_one, cons_stopped, stop_owned,
  put_descriptors, on_stop_services, on_start_services, on_remove_descriptors,
}

abbrev pub is_announced : Descriptor → Bool
is_announced d = elim d.announced [ none ↦ false | some n ↦ true ]

-- No descriptor of that module has a service.
abbrev pub AreSilent : Text → List Descriptor → Type 0
AreSilent uid = All (λ d. (is_owned uid d && is_announced d) ≡ false)

-- The same of what a step of the loop, or the loop, leaves.
abbrev FirstSilent : Text → Option (Descriptor × Announcer) → Type 0
FirstSilent uid none = Unit
FirstSilent uid (some r) = (is_owned uid r.0 && is_announced r.0) ≡ false

abbrev LeavesSilent : Text → Option (List Descriptor × Announcer) → Type 0
LeavesSilent uid none = Unit
LeavesSilent uid (some r) = AreSilent uid r.0

abbrev announced_none : Descriptor → Announcer → Descriptor × Announcer
announced_none d b = (record d { announced = none }, b)

withdrawn_first :
    (uid : Text) (d : Descriptor) (o : Option Announcer)
    → FirstSilent uid (elim o [ none ↦ none | some b ↦ some (announced_none d b) ])
withdrawn_first uid d none = tt
withdrawn_first uid d (some b) = ground arith

stop_one-FirstSilent :
    (uid : Text) (d : Descriptor) (a : Announcer) (o : Option ℕ)
    → d.announced ≡ o
    → FirstSilent uid (stop_one d a)
unfolding stop_one
stop_one-FirstSilent uid d a none e = rw (e, stop_one) (ground (arith, e))
stop_one-FirstSilent uid d a (some n) e =
    rw (e, stop_one)
      (withdrawn_first uid d (withdraw n (record a { services = remove_number n a.services })))

step-FirstSilent :
    (uid : Text) (d : Descriptor) (a : Announcer)
    → FirstSilent uid (if is_owned uid d then stop_one d a else some (d, a))
step-FirstSilent uid d a = elim (Bool-cases (is_owned uid d)) [
  | inl e ↦ rw e (stop_one-FirstSilent uid d a d.announced refl)
  | inr e ↦ rw e (ground (arith, e))
]

cons_stopped-LeavesSilent :
    (uid : Text) (d : Descriptor) (o : Option (List Descriptor × Announcer))
    → (is_owned uid d && is_announced d) ≡ false
    → LeavesSilent uid o
    → LeavesSilent uid (cons_stopped d o)
unfolding cons_stopped
cons_stopped-LeavesSilent uid d none e h = tt
cons_stopped-LeavesSilent uid d (some r) e h = (e, h)

stop_owned-LeavesSilent :
    (uid : Text) (ds : List Descriptor) (a : Announcer) → LeavesSilent uid (stop_owned uid ds a)
unfolding stop_owned
stop_owned-LeavesSilent uid [] a = tt
stop_owned-LeavesSilent uid (d ∷ ds) a =
    after (if is_owned uid d then stop_one d a else some (d, a)) (step-FirstSilent uid d a)
      (λ b. stop_owned-LeavesSilent uid ds b)
  where
    after :
        (o : Option (Descriptor × Announcer))
        → FirstSilent uid o
        → ((b : Announcer) → LeavesSilent uid (stop_owned uid ds b))
        → LeavesSilent uid
            (elim o [ none ↦ none | some r ↦ cons_stopped r.0 (stop_owned uid ds r.1) ])
    after none h rest = tt
    after (some r) h rest = cons_stopped-LeavesSilent uid r.0 _ h (rest r.1)

without_owner-All :
    (uid : Text) (ds : List Descriptor) → All (λ d. is_owned uid d ≡ false) (without_owner uid ds)
unfolding without_owner
without_owner-All uid [] = tt
without_owner-All uid (d ∷ ds) = elim (Bool-cases (is_owned uid d)) [
  | inl e ↦ rw (e, without_owner) (without_owner-All uid ds)
  | inr e ↦ rw (e, without_owner) (e, without_owner-All uid ds)
]

on_stop_services-by :
    (uid : Text) (o : Option (List Descriptor × Announcer)) (b : Announcer)
    → LeavesSilent uid o
    → put_descriptors o ≡ some b
    → AreSilent uid b.descriptors
unfolding put_descriptors
on_stop_services-by uid none b h e = absurd (cc e)
on_stop_services-by uid (some r) b h e = subst (λ c. AreSilent uid c.descriptors) (some_inj.0 e) h

-- Once the services of a module are stopped, no descriptor of that module has a running service.
on_stop_services-AreSilent :
    (uid : Text) (a b : Announcer) → on_stop_services uid a ≡ some b → AreSilent uid b.descriptors
unfolding on_stop_services
on_stop_services-AreSilent uid a b e =
    on_stop_services-by uid (stop_owned uid a.descriptors a) b
      (stop_owned-LeavesSilent uid a.descriptors a) e

-- Once the descriptors of a module are removed, none of those that are left belongs to it.
pub on_remove_descriptors-owned :
    (uid : Text) (a b : Announcer)
    → on_remove_descriptors uid a ≡ some b
    → All (λ d. is_owned uid d ≡ false) b.descriptors
unfolding on_remove_descriptors
on_remove_descriptors-owned uid a b h = elim (Option-cases (on_start_services uid a)) [
  | inl e ↦ absurd (let d = rw (e, on_remove_descriptors) at h in cc d)
  | inr (c, e) ↦
      subst (λ x. All (λ d. is_owned uid d ≡ false) x.descriptors)
        (some_inj.0 (rw (e, on_remove_descriptors) at h)) (without_owner-All uid c.descriptors)
]
