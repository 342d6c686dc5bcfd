-- ===== src/Handlers/Methods/Selection.antt =====
-- Which methods a handler takes, as a condition on its configuration.
use qt_sss_shttps.Common.{
  ◌≡◌, refl, sym, ap, subst, Bool, true, false, not, ◌&&◌, ◌||◌, List, [], ◌∷◌, ◌++◌, arith, All,
  All-append, Bool-cases, inl, inr, drop,
}
use qt_sss_shttps.Text.{Text, codes, text_eq, contains, starts_with}
use qt_sss_shttps.Text.Laws.{text_eq_iff, text_eq_symm}
use qt_sss_shttps.Handlers.Methods.{
  all_methods, MethodLists, prepare_method, prepare_methods, append_method, append_methods,
}

pub contains-append :
    (xs ys : List Text) (t : Text) → contains (xs ++ ys) t ≡ (contains xs t || contains ys t)
unfolding contains
contains-append [] ys t = refl
contains-append (x ∷ xs) ys t = ground (arith, contains-append xs ys t)

contains-All :
    (P : Text → Type 0) (xs : List Text) (t : Text) → All P xs → contains xs t ≡ true → P t
unfolding contains
contains-All P [] t a h = cc
contains-All P (x ∷ xs) t (p, a) h = elim (Bool-cases (text_eq x t)) [
  | inl e ↦ subst P ((text_eq_iff x t).0 e) p
  | inr e ↦ contains-All P xs t a (rw e at h)
]

-- A text that does not begin with `^`, is not `*`, and with `^` in front is no method.
pub record IsPlain (m : Text) : Type 0 where
  pub no_caret : starts_with m (codes "^") ≡ false
  pub no_star : text_eq m (codes "*") ≡ false
  pub caret_unknown : contains all_methods (b'^' ∷ m) ≡ false

abbrev pub BeginsCaret : Text → Type 0
BeginsCaret m = starts_with m (codes "^") ≡ true

unfoldable pub is_plain : Text → Bool
is_plain m =
    not (starts_with m (codes "^"))
    && (not (text_eq m (codes "*")) && not (contains all_methods (b'^' ∷ m)))

pub all_methods_plain : All (λ m. is_plain m ≡ true) all_methods
unfolding is_plain starts_with text_eq contains
all_methods_plain = (refl, (refl, (refl, (refl, (refl, (refl, (refl, (refl, (refl, tt)))))))))

IsPlain-of_is_plain : (m : Text) → is_plain m ≡ true → IsPlain m
unfolding is_plain
IsPlain-of_is_plain m h = ground arith

pub IsPlain-of_contains : (m : Text) → contains all_methods m ≡ true → IsPlain m
IsPlain-of_contains m h =
    IsPlain-of_is_plain m (contains-All (λ n. is_plain n ≡ true) all_methods m all_methods_plain h)

pub starts_with-caret : (m : Text) → starts_with (b'^' ∷ m) (codes "^") ≡ true
unfolding starts_with
starts_with-caret [] = refl
starts_with-caret (c ∷ m) = refl

-- Texts of the two kinds differ.
plain-caret : (m n : Text) → starts_with m (codes "^") ≡ false → BeginsCaret n → text_eq m n ≡ false
plain-caret m n p b = ground (arith, text_eq_iff m n)

append_method-contains :
    (v t : Text) (ms : List Text)
    → starts_with v (codes "^") ≡ false
    → (contains (append_method v ms) t
        ≡ (contains ms t || (text_eq v t && not (contains ms (b'^' ∷ t)))))
      × (contains (append_method v ms) (b'^' ∷ t) ≡ contains ms (b'^' ∷ t))
unfolding append_method contains
append_method-contains v t ms p = ground (
  arith,
  text_eq_iff v t,
  contains-append ms (v ∷ []) t,
  contains-append ms (v ∷ []) (b'^' ∷ t),
  plain-caret v (b'^' ∷ t) p (starts_with-caret t),
)

pub append_methods-contains :
    (valid : List Text) (t : Text) (ms : List Text)
    → All (λ v. starts_with v (codes "^") ≡ false) valid
    → (contains (append_methods valid ms) t
        ≡ (contains ms t || (contains valid t && not (contains ms (b'^' ∷ t)))))
      × (contains (append_methods valid ms) (b'^' ∷ t) ≡ contains ms (b'^' ∷ t))
unfolding append_methods contains
append_methods-contains [] t ms a = ground arith
append_methods-contains (v ∷ valid) t ms (p, a) =
    ground (
      arith,
      append_method-contains v t ms p,
      append_methods-contains valid t (append_method v ms) a,
    )

-- What the two lists hold between the rounds of the first loop.
pub record IsSorted (l : MethodLists) : Type 0 where
  pub plain_methods : All (λ v. starts_with v (codes "^") ≡ false) l.methods
  pub caret_methods : All BeginsCaret l.not_methods

pub caret-contains :
    (ns : List Text) (t : Text)
    → All BeginsCaret ns
    → starts_with t (codes "^") ≡ false
    → contains ns t ≡ false
unfolding contains
caret-contains [] t a p = refl
caret-contains (n ∷ ns) t (b, a) p = ground (arith, caret-contains ns t a p, text_eq_iff n t)

prepare_method-IsSorted : (m : Text) (l : MethodLists) → IsSorted l → IsSorted (prepare_method m l)
unfolding prepare_method
prepare_method-IsSorted m l s = elim (Bool-cases (text_eq m (codes "*"))) [
  | inl e ↦
      rw (e, prepare_method)
        (record { plain_methods = s.plain_methods; caret_methods = s.caret_methods })
  | inr e ↦ elim (Bool-cases (starts_with m (codes "^"))) [
    | inl c ↦ elim (Bool-cases (contains all_methods (drop 1 m))) [
      | inl k ↦
          rw (e, c, k, prepare_method)
            (record {
              plain_methods = s.plain_methods;
              caret_methods = All-append BeginsCaret l.not_methods (m ∷ []) s.caret_methods (c, tt);
            })
      | inr k ↦
          rw (e, c, k, prepare_method)
            (record { plain_methods = s.plain_methods; caret_methods = s.caret_methods })
    ]
    | inr c ↦ elim (Bool-cases l.all_added) [
      | inl g ↦
          rw (e, c, g, prepare_method)
            (record { plain_methods = s.plain_methods; caret_methods = s.caret_methods })
      | inr g ↦ elim (Bool-cases (contains all_methods m)) [
        | inl k ↦
            rw (e, c, g, k, prepare_method)
              (record {
                plain_methods =
                    All-append (λ v. starts_with v (codes "^") ≡ false) l.methods (m ∷ [])
                      s.plain_methods (c, tt);
                caret_methods = s.caret_methods;
              })
        | inr k ↦
            rw (e, c, g, k, prepare_method)
              (record { plain_methods = s.plain_methods; caret_methods = s.caret_methods })
      ]
    ]
  ]
]

pub contains-single : (m t : Text) → contains (m ∷ []) t ≡ text_eq m t
unfolding contains
contains-single m t = ground arith

-- A text with an unknown method behind its first character is not `^` and a known one.
caret_known :
    (m t : Text)
    → contains all_methods t ≡ true
    → contains all_methods (drop 1 m) ≡ false
    → text_eq m (b'^' ∷ t) ≡ false
caret_known m t k u = elim (Bool-cases (text_eq m (b'^' ∷ t))) [
  | inl e ↦
      let same : contains all_methods (drop 1 m) ≡ contains all_methods t =
        ap (λ n. contains all_methods (drop 1 n)) ((text_eq_iff m (b'^' ∷ t)).0 e) in
      cc (same, k, u)
  | inr e ↦ e
]

known_or_other :
    (m t : Text)
    → contains all_methods t ≡ true
    → contains all_methods m ≡ false
    → text_eq m t ≡ false
known_or_other m t k u = elim (Bool-cases (text_eq m t)) [
  | inl e ↦ cc (ap (contains all_methods) ((text_eq_iff m t).0 e), k, u)
  | inr e ↦ e
]

star_no_caret : (m : Text) → text_eq m (codes "*") ≡ true → starts_with m (codes "^") ≡ false
star_no_caret m e =
    subst (λ n. starts_with n (codes "^") ≡ false) (sym ((text_eq_iff m (codes "*")).0 e))
      (unfold starts_with in refl)

prepare_method-contains :
    (m t : Text) (l : MethodLists)
    → contains all_methods t ≡ true
    → let l' = prepare_method m l in
      ((l'.all_added || contains l'.methods t)
        ≡ ((l.all_added || contains l.methods t) || (text_eq m (codes "*") || text_eq m t)))
      × (contains l'.not_methods (b'^' ∷ t)
          ≡ (contains l.not_methods (b'^' ∷ t) || text_eq m (b'^' ∷ t)))
unfolding prepare_method
prepare_method-contains m t l k = ground (
  arith,
  contains-append l.not_methods (m ∷ []) (b'^' ∷ t),
  contains-append l.methods (m ∷ []) t,
  contains-single m t,
  contains-single m (b'^' ∷ t),
  caret_known m t k,
  known_or_other m t k,
  plain-caret m (b'^' ∷ t),
  starts_with-caret t,
  star_no_caret m,
  plain-caret t m (IsPlain-of_contains t k).no_caret,
  text_eq_symm t m,
)

pub prepare_methods-IsSorted :
    (ms : List Text) (l : MethodLists) → IsSorted l → IsSorted (prepare_methods ms l)
unfolding prepare_methods
prepare_methods-IsSorted [] l s = s
prepare_methods-IsSorted (m ∷ ms) l s =
    prepare_methods-IsSorted ms (prepare_method m l) (prepare_method-IsSorted m l s)

pub prepare_methods-contains :
    (ms : List Text) (t : Text) (l : MethodLists)
    → contains all_methods t ≡ true
    → let l' = prepare_methods ms l in
      ((l'.all_added || contains l'.methods t)
        ≡ ((l.all_added || contains l.methods t) || (contains ms (codes "*") || contains ms t)))
      × (contains l'.not_methods (b'^' ∷ t)
          ≡ (contains l.not_methods (b'^' ∷ t) || contains ms (b'^' ∷ t)))
unfolding prepare_methods contains
prepare_methods-contains [] t l k = ground arith
prepare_methods-contains (m ∷ ms) t l k =
    ground
      (arith, prepare_methods-contains ms t (prepare_method m l) k, prepare_method-contains m t l k)
