-- ===== src/HttpsServer/Answered.antt =====
-- Which handler an answer comes from, and what a final rewrite leaves alone.
use mathlib.Core.List.{Memᴰ}
use qt_sss_shttps.Common.{
  ◌≡◌, ◌≢◌, ◌⊎◌, refl, sym, ap, ◌∙◌, true, false, List, [], ◌∷◌, ◌++◌, arith, Bool-cases, inl, inr,
}
use qt_sss_shttps.Text.{Text, codes, contains}
use qt_sss_shttps.Engine.{Engine}
use qt_sss_shttps.Www.Request.{WwwRequest}
use qt_sss_shttps.Handlers.{Handler, is_rewrite_handler_class}
use qt_sss_shttps.Handlers.Handle.{
  Answer, respond404, respond_file, answer, handle, rewritten, rewrite_request, drop_handle,
  redirect_handle, file_server_handle, serve_path,
}
use qt_sss_shttps.HttpsServer.{is_skipped, next_index}
use qt_sss_shttps.HttpsServer.Polling.{poll, Signal-cases}

-- A handler of the list that takes the request's method gave the answer, asked about a request
-- with the same method.
pub record IsAnswered (e : Engine) (hs : List Handler) (method : Text) (a : Answer) : Type 0 where
  pub handler : Handler
  pub listed : Memᴰ handler hs
  pub takes_method : contains handler.methods method ≡ true
  pub not_excluded : contains handler.methods (b'^' ∷ method) ≡ false
  pub asked : WwwRequest
  pub same_method : asked.method ≡ method
  pub answered : (handle e handler asked).1 ≡ answer a

IsAnswered-cons :
    (e : Engine) (h : Handler) (hs : List Handler) (method : Text) (a : Answer)
    → IsAnswered e hs method a
    → IsAnswered e (h ∷ hs) method a
IsAnswered-cons e h hs method a i = record {
  handler = i.handler;
  listed = Memᴰ.tail i.listed;
  takes_method = i.takes_method;
  not_excluded = i.not_excluded;
  asked = i.asked;
  same_method = i.same_method;
  answered = i.answered;
}

handle-method : (e : Engine) (h : Handler) (r : WwwRequest) → (handle e h r).0.method ≡ r.method
unfolding handle rewrite_request
handle-method e h r = ground arith

is_skipped-methods :
    (h : Handler) (r : WwwRequest)
    → is_skipped h r ≡ false
    → (contains h.methods r.method ≡ true) × (contains h.methods (b'^' ∷ r.method) ≡ false)
unfolding is_skipped
is_skipped-methods h r s = ground arith

poll-IsAnswered_method :
    (e : Engine) (hs : List Handler) (r : WwwRequest) (method : Text) (a : Answer)
    → r.method ≡ method
    → (poll e hs r).1 ≡ a
    → a ≢ respond404
    → IsAnswered e hs method a
unfolding poll next_index
poll-IsAnswered_method e [] r method a m p n = absurd (n (sym p))
poll-IsAnswered_method e (h ∷ hs) r method a m p n =
    elim (Bool-cases (is_skipped h (next_index r))) [
      | inl s ↦
          IsAnswered-cons e h hs method a
            (poll-IsAnswered_method e hs (next_index r) method a m (rw (s, poll) at p) n)
      | inr s ↦ elim (Signal-cases (handle e h (next_index r)).1) [
        | inl t ↦ IsAnswered-cons e h hs method a (
            poll-IsAnswered_method e hs (handle e h (next_index r)).0 method a
              (handle-method e h (next_index r) ∙ m) (rw (s, t, poll) at p) n)
        | inr (b, t) ↦
            let same : b ≡ a = rw (s, t, poll) at p in
            let (takes, free) = is_skipped-methods h (next_index r) s in
            record {
              handler = h;
              listed = Memᴰ.head refl;
              takes_method = rw (← m) takes;
              not_excluded = rw (← m) free;
              asked = next_index r;
              same_method = m;
              answered = t ∙ ap answer same;
            }
      ]
    ]

-- Every answer but 404 is given by a listed handler that takes the request's method and does not
-- exclude it.
pub poll-IsAnswered :
    (e : Engine) (hs : List Handler) (r : WwwRequest)
    → (poll e hs r).1 ≢ respond404
    → IsAnswered e hs r.method (poll e hs r).1
poll-IsAnswered e hs r n = poll-IsAnswered_method e hs r r.method (poll e hs r).1 refl refl n

respond_file-ne-respond404 : (p : Text) → respond_file p ≢ respond404
respond_file-ne-respond404 p = cc

-- A path that may be served as a file.
abbrev pub IsServable : Engine → Text → Type 0
IsServable e p =
    (path : Text) × (p ≡ e.clean_path path)
    × ((e.file_info path).is_file ≡ true)
    × ((e.file_info path).is_readable ≡ true)

handle-respond_file :
    (e : Engine) (h : Handler) (r : WwwRequest) (p : Text)
    → (handle e h r).1 ≡ answer (respond_file p)
    → serve_path e h (rewritten e h r) ≡ respond_file p
unfolding handle drop_handle redirect_handle file_server_handle
handle-respond_file e h r p a = ground arith

serve_path-cases :
    (e : Engine) (h : Handler) (path p : Text)
    → serve_path e h path ≡ respond_file p
    → let index = path ++ (codes "/" ++ h.directory_index) in
      ((p ≡ e.clean_path path)
        × ((e.file_info path).is_file ≡ true)
        × ((e.file_info path).is_readable ≡ true))
      ⊎ ((p ≡ e.clean_path index)
          × ((e.file_info index).is_file ≡ true)
          × ((e.file_info index).is_readable ≡ true))
unfolding serve_path
serve_path-cases e h path p a = ground arith

serve_path-IsServable :
    (e : Engine) (h : Handler) (path p : Text)
    → serve_path e h path ≡ respond_file p
    → IsServable e p
serve_path-IsServable e h path p a = elim (serve_path-cases e h path p a) [
  | inl (x, y, z) ↦ (path, x, y, z)
  | inr (x, y, z) ↦ (path ++ (codes "/" ++ h.directory_index), x, y, z)
]

-- A file is only offered where the handlers found a readable file.
pub poll-IsServable :
    (e : Engine) (hs : List Handler) (r : WwwRequest) (p : Text)
    → (poll e hs r).1 ≡ respond_file p
    → IsServable e p
poll-IsServable e hs r p a =
    let i = poll-IsAnswered e hs r (λ n. respond_file-ne-respond404 p (sym a ∙ n)) in
    serve_path-IsServable e i.handler (rewritten e i.handler i.asked) p
      (handle-respond_file e i.handler i.asked p (i.answered ∙ ap answer a))

handle-rewrites_done :
    (e : Engine) (h : Handler) (r : WwwRequest)
    → is_skipped h r ≡ false
    → r.rewrites_done ≡ true
    → ((handle e h r).0.target ≡ r.target) × ((handle e h r).0.rewrites_done ≡ true)
unfolding handle is_skipped is_rewrite_handler_class rewrite_request
handle-rewrites_done e h r s d = ground arith

-- Once a final rewrite matched, no handler changes the target any more.
pub poll-rewrites_done :
    (e : Engine) (hs : List Handler) (r : WwwRequest)
    → r.rewrites_done ≡ true
    → (poll e hs r).0.target ≡ r.target
unfolding poll next_index
poll-rewrites_done e [] r d = refl
poll-rewrites_done e (h ∷ hs) r d = elim (Bool-cases (is_skipped h (next_index r))) [
  | inl s ↦ rw (s, poll) (poll-rewrites_done e hs (next_index r) d)
  | inr s ↦
      let (target, done) = handle-rewrites_done e h (next_index r) s d in
      elim (Signal-cases (handle e h (next_index r)).1) [
        | inl t ↦
            rw (s, t, poll) (poll-rewrites_done e hs (handle e h (next_index r)).0 done ∙ target)
        | inr (b, t) ↦ rw (s, t, poll) target
      ]
]
