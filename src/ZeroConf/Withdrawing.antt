-- ===== src/ZeroConf/Withdrawing.antt =====
-- The withdrawal of announced services.
use qt_sss_shttps.Common.{
  ℕ, ◌≡◌, refl, ◌∙◌, Bool, true, false, some, List, [], ◌∷◌, arith, Option-cases, inl, inr, subst,
}
use mathlib.Core.Option.{some_inj}
use qt_sss_shttps.ZeroConf.Announcer.{
  Announcement, Announcer, is_alive, delete_object, withdraw, withdraw_each,
}

deleted : (n : ℕ) (xs : List (ℕ × Announcement)) → is_alive n (delete_object n xs) ≡ false
unfolding is_alive delete_object
deleted n [] = refl
deleted n ((m, x) ∷ xs) = ground (arith, deleted n xs)

still_dead :
    (n m : ℕ) (xs : List (ℕ × Announcement))
    → is_alive n xs ≡ false
    → is_alive n (delete_object m xs) ≡ false
unfolding is_alive delete_object
still_dead n m [] e = refl
still_dead n m ((k, x) ∷ xs) e = ground (arith, still_dead n m xs, e)

-- The state after the withdrawal of objects: only the living objects are others.
pub record IsWithdrawn (a b : Announcer) : Type 0 where
  pub same_conf : b.conf ≡ a.conf
  pub same_descriptors : b.descriptors ≡ a.descriptors
  pub same_services : b.services ≡ a.services
  pub fewer : (n : ℕ) → is_alive n a.alive ≡ false → is_alive n b.alive ≡ false

withdraw_by :
    (t : Bool) (n : ℕ) (a b : Announcer)
    → is_alive n a.alive ≡ t
    → withdraw n a ≡ some b
    → record a { alive = delete_object n a.alive } ≡ b
unfolding withdraw
withdraw_by true n a b e h = some_inj.0 (rw (e, withdraw) at h)
withdraw_by false n a b e h = absurd (let d = rw (e, withdraw) at h in cc d)

withdraw-IsWithdrawn : (n : ℕ) (a b : Announcer) → withdraw n a ≡ some b → IsWithdrawn a b
withdraw-IsWithdrawn n a b h =
    subst (IsWithdrawn a) (withdraw_by (is_alive n a.alive) n a b refl h) (record {
      same_conf = refl;
      same_descriptors = refl;
      same_services = refl;
      fewer = λ m. λ e. still_dead m n a.alive e;
    })

withdraw-dead : (n : ℕ) (a b : Announcer) → withdraw n a ≡ some b → is_alive n b.alive ≡ false
withdraw-dead n a b h =
    subst (λ c. is_alive n c.alive ≡ false) (withdraw_by (is_alive n a.alive) n a b refl h)
      (deleted n a.alive)

IsWithdrawn-trans : (a b c : Announcer) → IsWithdrawn a b → IsWithdrawn b c → IsWithdrawn a c
IsWithdrawn-trans a b c x y = record {
  same_conf = y.same_conf ∙ x.same_conf;
  same_descriptors = y.same_descriptors ∙ x.same_descriptors;
  same_services = y.same_services ∙ x.same_services;
  fewer = λ n. λ e. y.fewer n (x.fewer n e);
}

withdraw_each-cases :
    (n : ℕ) (ns : List ℕ) (a c : Announcer)
    → withdraw_each (n ∷ ns) a ≡ some c
    → (b : Announcer) × ((withdraw n a ≡ some b) × (withdraw_each ns b ≡ some c))
unfolding withdraw_each
withdraw_each-cases n ns a c h = elim (Option-cases (withdraw n a)) [
  | inl e ↦ absurd (let d = rw (e, withdraw_each) at h in cc d)
  | inr (b, e) ↦ (b, (e, rw (e, withdraw_each) at h))
]

pub withdraw_each-IsWithdrawn :
    (ns : List ℕ) (a c : Announcer) → withdraw_each ns a ≡ some c → IsWithdrawn a c
unfolding withdraw_each
withdraw_each-IsWithdrawn [] a c h = subst (IsWithdrawn a) (some_inj.0 h) (record {
  same_conf = refl;
  same_descriptors = refl;
  same_services = refl;
  fewer = λ n. λ e. e;
})
withdraw_each-IsWithdrawn (n ∷ ns) a c h =
    let (b, (e, f)) = withdraw_each-cases n ns a c h in
    IsWithdrawn-trans a b c (withdraw-IsWithdrawn n a b e) (withdraw_each-IsWithdrawn ns b c f)

pub withdraw_each-dead :
    (n : ℕ) (ns : List ℕ) (a c : Announcer)
    → withdraw_each (n ∷ ns) a ≡ some c
    → is_alive n c.alive ≡ false
withdraw_each-dead n ns a c h =
    let (b, (e, f)) = withdraw_each-cases n ns a c h in
    (withdraw_each-IsWithdrawn ns b c f).fewer n (withdraw-dead n a b e)
