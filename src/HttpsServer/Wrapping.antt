-- ===== src/HttpsServer/Wrapping.antt =====
-- The handler index is a `quint8`: with 256 handlers or more it never passes the last one.
use qt_sss_shttps.Common.{
  ℕ, zero, suc, ◌≤◌, ◌<◌, ◌≡◌, refl, true, none, some, List, [], ◌∷◌, arith, All, length, get_elem?,
}
use qt_sss_shttps.Engine.{Engine}
use qt_sss_shttps.Www.Request.{WwwRequest}
use qt_sss_shttps.Handlers.{Handler}
use qt_sss_shttps.HttpsServer.{is_skipped, next_index, on_next_handler}
use qt_sss_shttps.HttpsServer.Polling.{on_next_handler-skip}

get_elem?-All :
    {A : Type 0} (P : A → Type 0) (n : ℕ) (xs : List A)
    → All P xs
    → n < length xs
    → (x : A) × (get_elem? xs n ≡ some x) × P x
get_elem?-All P n [] h l = absurd (omega arith)
get_elem?-All P zero (x ∷ xs) (p, h) l = (x, refl, p)
get_elem?-All P (suc n) (x ∷ xs) (p, h) l = get_elem?-All P n xs h (omega arith)

is_skipped-next_index :
    (h : Handler) (r : WwwRequest) → is_skipped h (next_index r) ≡ is_skipped h r
unfolding is_skipped next_index
is_skipped-next_index h r = refl

next_index-lt : (r : WwwRequest) → (next_index r).handler_index < 256
unfolding next_index
next_index-lt r = omega arith

All-is_skipped :
    (hs : List Handler) (r : WwwRequest)
    → All (λ h. is_skipped h r ≡ true) hs
    → All (λ h. is_skipped h (next_index r) ≡ true) hs
All-is_skipped [] r a = tt
All-is_skipped (h ∷ hs) r (p, a) = (rw (is_skipped-next_index h r) p, All-is_skipped hs r a)

-- With 256 handlers or more that all skip a request, no amount of fuel lets onNextHandler end,
-- since the 8-bit handler index wraps.
pub on_next_handler_diverges :
    (e : Engine) (hs : List Handler) (fuel : ℕ) (r : WwwRequest)
    → 256 ≤ length hs
    → r.handler_index < 256
    → All (λ h. is_skipped h r ≡ true) hs
    → on_next_handler e hs fuel r ≡ none
unfolding on_next_handler
on_next_handler_diverges e hs zero r l i a = refl
on_next_handler_diverges e hs (suc fuel) r l i a =
    let (h, g, s) = get_elem?-All (λ h. is_skipped h r ≡ true) r.handler_index hs a (omega arith) in
    rw (on_next_handler-skip e hs fuel r h g (rw (is_skipped-next_index h r) s)) (
      on_next_handler_diverges e hs fuel (next_index r) l (next_index-lt r) (All-is_skipped hs r a))
