-- ===== src/Handlers/Methods/Taken.antt =====
-- `initMethods` against its configuration: which methods a handler takes in the end.
use qt_sss_shttps.Common.{
  ◌≡◌, refl, Bool, true, false, not, ◌&&◌, ◌||◌, List, [], ◌∷◌, ◌++◌, arith, All, All-append,
}
use qt_sss_shttps.Text.{Text, codes, contains, starts_with}
use qt_sss_shttps.Handlers.Methods.{
  all_methods, MethodLists, prepare_methods, start_lists, finish_methods, init_methods,
}
use qt_sss_shttps.Handlers.Methods.Selection.{
  IsPlain-of_contains, IsSorted, contains-append, append_methods-contains, caret-contains,
  prepare_methods-IsSorted, prepare_methods-contains,
}

-- No entry at all, `*`, or the method itself.
abbrev pub asks_for : List Text → Text → Bool
asks_for [] m = true
asks_for (n ∷ ns) m = contains (n ∷ ns) (codes "*") || contains (n ∷ ns) m

pub start_lists-IsSorted : (names : List Text) → IsSorted (start_lists names)
unfolding start_lists
start_lists-IsSorted [] = record { plain_methods = tt; caret_methods = tt }
start_lists-IsSorted (n ∷ ns) = record { plain_methods = tt; caret_methods = tt }

all_methods-no_caret : All (λ v. starts_with v (codes "^") ≡ false) all_methods
unfolding starts_with
all_methods-no_caret = (refl, (refl, (refl, (refl, (refl, (refl, (refl, (refl, (refl, tt)))))))))

finish_methods-contains :
    (l : MethodLists) (m : Text)
    → contains all_methods m ≡ true
    → IsSorted l
    → (contains (finish_methods l) m
        ≡ ((l.all_added || contains l.methods m) && not (contains l.not_methods (b'^' ∷ m))))
      × (contains (finish_methods l) (b'^' ∷ m) ≡ contains l.not_methods (b'^' ∷ m))
unfolding finish_methods
finish_methods-contains l m k s = ground (
  arith,
  append_methods-contains (l.methods ++ all_methods) m l.not_methods (
      All-append (λ v. starts_with v (codes "^") ≡ false) l.methods all_methods s.plain_methods
        all_methods-no_caret),
  append_methods-contains l.methods m l.not_methods s.plain_methods,
  contains-append l.methods all_methods m,
  caret-contains l.not_methods m s.caret_methods (IsPlain-of_contains m k).no_caret,
)

-- With `^` in front the list holds what was prepared, also where the text is no method.
pub finish_methods-double :
    (l : MethodLists) (t : Text)
    → IsSorted l
    → contains (finish_methods l) (b'^' ∷ t) ≡ contains l.not_methods (b'^' ∷ t)
unfolding finish_methods
finish_methods-double l t s = ground (
  arith,
  append_methods-contains (l.methods ++ all_methods) t l.not_methods (
      All-append (λ v. starts_with v (codes "^") ≡ false) l.methods all_methods s.plain_methods
        all_methods-no_caret),
  append_methods-contains l.methods t l.not_methods s.plain_methods,
)

-- For each of the nine known methods, the list that initMethods leaves holds the method exactly
-- when the configuration asks for it (by no entry at all, by * or by name) and does not exclude
-- it by ^, and holds its exclusion exactly when the configuration does.
pub init_methods-contains :
    (names : List Text) (m : Text)
    → contains all_methods m ≡ true
    → (contains (init_methods names) m ≡ (asks_for names m && not (contains names (b'^' ∷ m))))
      × (contains (init_methods names) (b'^' ∷ m) ≡ contains names (b'^' ∷ m))
unfolding init_methods start_lists contains
init_methods-contains [] m k = ground (
  arith,
  finish_methods-contains (prepare_methods [] (start_lists [])) m k
      (prepare_methods-IsSorted [] (start_lists []) (start_lists-IsSorted [])),
  prepare_methods-contains [] m (start_lists []) k,
)
init_methods-contains (n ∷ ns) m k = ground (
  arith,
  finish_methods-contains (prepare_methods (n ∷ ns) (start_lists (n ∷ ns))) m k
      (prepare_methods-IsSorted (n ∷ ns) (start_lists (n ∷ ns)) (start_lists-IsSorted (n ∷ ns))),
  prepare_methods-contains (n ∷ ns) m (start_lists (n ∷ ns)) k,
)
