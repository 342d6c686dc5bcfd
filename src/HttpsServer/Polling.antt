-- ===== src/HttpsServer/Polling.antt =====
-- Polling the handlers ends with one answer, that of the first handler that takes the request.
use qt_sss_shttps.Common.{
  ℕ, zero, suc, ◌+◌, ◌≤◌, ◌<◌, ◌≡◌, ◌⊎◌, refl, ◌∙◌, true, false, none, some, List, [], ◌∷◌, arith,
  if◌then◌else◌, Bool-cases, inl, inr, length, get_elem?, drop,
}
use qt_sss_shttps.Engine.{Engine}
use qt_sss_shttps.Www.Request.{WwwRequest}
use qt_sss_shttps.Handlers.{Handler}
use qt_sss_shttps.Handlers.Handle.{
  Answer, respond404, Signal, next_handler, answer, handle, rewrite_request,
}
use qt_sss_shttps.HttpsServer.{is_skipped, next_index, on_next_handler}

-- The answer by recursion on the handlers that are left: each is asked at most once.
unfoldable pub poll : Engine → List Handler → WwwRequest → WwwRequest × Answer
poll e [] r = (r, respond404)
poll e (h ∷ hs) r =
    let r1 = next_index r in
    let skipped = poll e hs r1 in
    let passed = poll e hs (handle e h r1).0 in
    if is_skipped h r1
    then skipped
    else elim ((handle e h r1).1) [ next_handler ↦ passed | answer a ↦ ((handle e h r1).0, a) ]

handle-handler_index :
    (e : Engine) (h : Handler) (r : WwwRequest) → (handle e h r).0.handler_index ≡ r.handler_index
unfolding handle rewrite_request
handle-handler_index e h r = ground arith

pub Signal-cases : (g : Signal) → (g ≡ next_handler) ⊎ ((a : Answer) × (g ≡ answer a))
Signal-cases next_handler = inl refl
Signal-cases (answer a) = inr (a, refl)

get_elem?-drop_nil : {A : Type 0} (n : ℕ) (xs : List A) → drop n xs ≡ [] → get_elem? xs n ≡ none
get_elem?-drop_nil zero [] e = refl
get_elem?-drop_nil zero (x ∷ xs) e = cc
get_elem?-drop_nil (suc n) [] e = refl
get_elem?-drop_nil (suc n) (x ∷ xs) e = get_elem?-drop_nil n xs e

get_elem?-drop_cons :
    {A : Type 0} (n : ℕ) (xs : List A) (y : A) (ys : List A)
    → drop n xs ≡ y ∷ ys
    → (get_elem? xs n ≡ some y) × (drop (suc n) xs ≡ ys) × (n < length xs)
get_elem?-drop_cons zero [] y ys e = cc
get_elem?-drop_cons zero (x ∷ xs) y ys e = (cc, cc, omega arith)
get_elem?-drop_cons (suc n) [] y ys e = cc
get_elem?-drop_cons (suc n) (x ∷ xs) y ys e =
    let (g, d, l) = get_elem?-drop_cons n xs y ys e in (g, d, omega arith)

next_index-handler_index :
    (r : WwwRequest) → r.handler_index < 255 → (next_index r).handler_index ≡ suc r.handler_index
unfolding next_index
next_index-handler_index r h = omega arith

module _ (e : Engine) (hs : List Handler) (fuel : ℕ) (r : WwwRequest) where
  on_next_handler-end :
      get_elem? hs r.handler_index ≡ none → on_next_handler e hs (suc fuel) r ≡ some (r, respond404)
  unfolding on_next_handler
  on_next_handler-end g = rw (g, on_next_handler)

  module _ (h : Handler) (g : get_elem? hs r.handler_index ≡ some h) where
    pub on_next_handler-skip :
        is_skipped h (next_index r) ≡ true
        → on_next_handler e hs (suc fuel) r ≡ on_next_handler e hs fuel (next_index r)
    unfolding on_next_handler
    on_next_handler-skip s = rw (g, s, on_next_handler)

    on_next_handler-pass :
        is_skipped h (next_index r) ≡ false
        → (handle e h (next_index r)).1 ≡ next_handler
        → on_next_handler e hs (suc fuel) r
          ≡ on_next_handler e hs fuel (handle e h (next_index r)).0
    unfolding on_next_handler
    on_next_handler-pass s p = rw (g, s, p, on_next_handler)

    on_next_handler-answer :
        (a : Answer)
        → is_skipped h (next_index r) ≡ false
        → (handle e h (next_index r)).1 ≡ answer a
        → on_next_handler e hs (suc fuel) r ≡ some ((handle e h (next_index r)).0, a)
    unfolding on_next_handler
    on_next_handler-answer a s p = rw (g, s, p, on_next_handler)

-- With at most 255 handlers and fuel for those that are left, onNextHandler of a request at any
-- handler index yields what poll yields on the handlers from that index on.
on_next_handler-poll :
    (e : Engine) (hs rest : List Handler) (fuel : ℕ) (r : WwwRequest)
    → length hs ≤ 255
    → drop r.handler_index hs ≡ rest
    → length hs < fuel + r.handler_index
    → 0 < fuel
    → on_next_handler e hs fuel r ≡ some (poll e rest r)
unfolding poll
on_next_handler-poll e hs rest zero r l d f p = elim p [ ]
on_next_handler-poll e hs [] (suc fuel) r l d f p =
    on_next_handler-end e hs fuel r (get_elem?-drop_nil r.handler_index hs d)
on_next_handler-poll e hs (h ∷ rest) (suc fuel) r l d f p =
    let (g, d', i) = get_elem?-drop_cons r.handler_index hs h rest d in
    let step = next_index-handler_index r (omega arith) in
    let asked = handle e h (next_index r) in
    let next : (r' : WwwRequest)
        → r'.handler_index ≡ suc r.handler_index
        → on_next_handler e hs fuel r' ≡ some (poll e rest r') =
      λ r' k. on_next_handler-poll e hs rest fuel r' l (rw k d') (omega arith) (omega arith) in
    elim (Bool-cases (is_skipped h (next_index r))) [
      | inl s ↦ rw s (on_next_handler-skip e hs fuel r h g s ∙ next (next_index r) step)
      | inr s ↦ elim (Signal-cases asked.1) [
        | inl t ↦
            rw (s, t, poll)
              (on_next_handler-pass e hs fuel r h g s t
                ∙ next asked.0 (handle-handler_index e h (next_index r) ∙ step))
        | inr (a, t) ↦ rw (s, t, poll) (on_next_handler-answer e hs fuel r h g a s t)
      ]
    ]

-- With at most 255 handlers, onNextHandler of a new request ends within one round more than there
-- are handlers, and its outcome is that of the recursion poll, which asks each handler at most
-- once and in order.
pub on_next_handler_total :
    (e : Engine) (hs : List Handler) (r : WwwRequest)
    → length hs ≤ 255
    → r.handler_index ≡ 0
    → on_next_handler e hs (suc (length hs)) r ≡ some (poll e hs r)
on_next_handler_total e hs r l z =
    on_next_handler-poll e hs hs (suc (length hs)) r l (rw z) (rw z (omega arith)) (omega arith)
