-- ===== src/HttpsServer/Outcome.antt =====
-- What the answers of `onNextHandler` itself come from.
use qt_sss_shttps.Common.{suc, ◌≤◌, ◌≡◌, ◌≢◌, sym, ap, ◌∙◌, true, some, List, length}
use qt_sss_shttps.Text.{Text}
use qt_sss_shttps.Engine.{Engine}
use qt_sss_shttps.Www.Request.{WwwRequest}
use qt_sss_shttps.Handlers.{Handler}
use qt_sss_shttps.Handlers.Handle.{Answer, respond404, respond_file}
use qt_sss_shttps.HttpsServer.{on_next_handler}
use qt_sss_shttps.HttpsServer.Polling.{poll, on_next_handler_total}
use qt_sss_shttps.HttpsServer.Answered.{
  IsAnswered, IsServable, poll-IsAnswered, poll-IsServable, poll-rewrites_done,
}

module _ (e : Engine) (hs : List Handler) (r s : WwwRequest) (a : Answer) (l : length hs ≤ 255)
    (z : r.handler_index ≡ 0) (o : on_next_handler e hs (suc (length hs)) r ≡ some (s, a)) where
  outcome : poll e hs r ≡ (s, a)
  outcome = cc (on_next_handler_total e hs r l z, o)

  -- An answer other than 404 to a new request, with at most 255 handlers, was given by a listed
  -- handler that takes the method of the request and does not exclude it, asked about a request
  -- with that method.
  pub on_next_handler-IsAnswered : a ≢ respond404 → IsAnswered e hs r.method a
  on_next_handler-IsAnswered n =
      rw (← ap (λ x. x.1) outcome)
        (poll-IsAnswered e hs r (λ k. n (sym (ap (λ x. x.1) outcome) ∙ k)))

  -- Where onNextHandler answers a new request with a file, with at most 255 handlers, the path is
  -- the cleaned path of an existing readable file.
  pub on_next_handler-IsServable : (p : Text) → a ≡ respond_file p → IsServable e p
  on_next_handler-IsServable p k = poll-IsServable e hs r p (ap (λ x. x.1) outcome ∙ k)

  -- Once the rewrites of a new request are marked as done, polling at most 255 handlers leaves
  -- its target as it is.
  on_next_handler-rewrites_done : r.rewrites_done ≡ true → s.target ≡ r.target
  on_next_handler-rewrites_done d = sym (ap (λ x. x.0.target) outcome) ∙ poll-rewrites_done e hs r d
