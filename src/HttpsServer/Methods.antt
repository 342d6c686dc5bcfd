-- ===== src/HttpsServer/Methods.antt =====
-- The method tests of `onNextHandler` against the handler's configuration.
use qt_sss_shttps.Common.{
  ◌≡◌, refl, ap, ◌∙◌, true, false, not, ◌&&◌, ◌||◌, List, [], ◌∷◌, arith, drop, Bool-cases, inl,
  inr,
}
use qt_sss_shttps.Text.{Text, text_eq, contains}
use qt_sss_shttps.Text.Laws.{text_eq_iff}
use qt_sss_shttps.Www.Request.{WwwRequest}
use qt_sss_shttps.Handlers.{Handler, is_rewrite_handler_class}
use qt_sss_shttps.Handlers.Methods.{
  all_methods, MethodLists, prepare_method, prepare_methods, start_lists, init_methods,
}
use qt_sss_shttps.Handlers.Methods.Selection.{
  IsPlain-of_contains, contains-append, contains-single, prepare_methods-IsSorted,
}
use qt_sss_shttps.Handlers.Methods.Taken.{
  asks_for, init_methods-contains, start_lists-IsSorted, finish_methods-double,
}
use qt_sss_shttps.HttpsServer.{is_skipped}

-- For a handler whose methods come from initMethods and a request with a known method, the three
-- tests of onNextHandler skip the handler exactly when its configuration does not ask for the
-- method, excludes it, or the handler rewrites and the rewrites are done.
pub is_skipped-init_methods :
    (names : List Text) (h : Handler) (r : WwwRequest)
    → contains all_methods r.method ≡ true
    → h.methods ≡ init_methods names
    → is_skipped h r ≡ (
        (not (asks_for names r.method) || contains names (b'^' ∷ r.method))
        || (is_rewrite_handler_class h.class && r.rewrites_done))
unfolding is_skipped
is_skipped-init_methods names h r k e =
    let (takes, excludes) = init_methods-contains names r.method k in
    rw (e, excludes, takes) (ground arith)

prepare_method-double :
    (n m : Text) (l : MethodLists)
    → contains all_methods m ≡ true
    → contains l.not_methods (b'^' ∷ b'^' ∷ m) ≡ false
    → contains (prepare_method n l).not_methods (b'^' ∷ b'^' ∷ m) ≡ false
unfolding prepare_method
prepare_method-double n m l k c = ground (
  arith,
  c,
  contains-append l.not_methods (n ∷ []) (b'^' ∷ b'^' ∷ m),
  contains-single n (b'^' ∷ b'^' ∷ m),
  not_double n m k,
)
  where
    not_double :
        (n m : Text)
        → contains all_methods m ≡ true
        → contains all_methods (drop 1 n) ≡ true
        → text_eq n (b'^' ∷ b'^' ∷ m) ≡ false
    not_double n m k u = elim (Bool-cases (text_eq n (b'^' ∷ b'^' ∷ m))) [
      | inl e ↦ cc (
        ap (λ t. contains all_methods (drop 1 t)) ((text_eq_iff n (b'^' ∷ b'^' ∷ m)).0 e),
        u,
        (IsPlain-of_contains m k).caret_unknown,
      )
      | inr e ↦ e
    ]

prepare_methods-double :
    (names : List Text) (m : Text) (l : MethodLists)
    → contains all_methods m ≡ true
    → contains l.not_methods (b'^' ∷ b'^' ∷ m) ≡ false
    → contains (prepare_methods names l).not_methods (b'^' ∷ b'^' ∷ m) ≡ false
unfolding prepare_methods
prepare_methods-double [] m l k c = c
prepare_methods-double (n ∷ names) m l k c =
    prepare_methods-double names m (prepare_method n l) k (prepare_method-double n m l k c)

start_lists-double :
    (names : List Text) (t : Text) → contains (start_lists names).not_methods t ≡ false
unfolding start_lists contains
start_lists-double [] t = refl
start_lists-double (n ∷ names) t = refl

init_methods-double :
    (names : List Text) (m : Text)
    → contains all_methods m ≡ true
    → contains (init_methods names) (b'^' ∷ b'^' ∷ m) ≡ false
unfolding init_methods
init_methods-double names m k =
    finish_methods-double (prepare_methods names (start_lists names)) (b'^' ∷ m)
      (prepare_methods-IsSorted names (start_lists names) (start_lists-IsSorted names))
    ∙ prepare_methods-double names m (start_lists names) k (start_lists-double names _)

-- A handler that excludes a known method, and does not rewrite, is not skipped for a request
-- whose method is that method with ^ in front.
is_skipped-caret_method :
    (names : List Text) (m : Text) (h : Handler) (r : WwwRequest)
    → contains all_methods m ≡ true
    → contains names (b'^' ∷ m) ≡ true
    → h.methods ≡ init_methods names
    → is_rewrite_handler_class h.class ≡ false
    → r.method ≡ b'^' ∷ m
    → is_skipped h r ≡ false
unfolding is_skipped
is_skipped-caret_method names m h r k x e w p =
    let (takes, excludes) = init_methods-contains names m k in
    let double = init_methods-double names m k in rw (e, p, w, double, excludes, x) (ground arith)
