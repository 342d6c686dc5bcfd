-- ===== src/Exchange/Closes.antt =====
-- Every exchange over an encrypted connection ends, and with a closed connection.
use qt_sss_shttps.Common.{
  ℕ, suc, ◌≤◌, ◌≡◌, ◌⊎◌, refl, subst, ap, true, false, not, Option, none, some, List, [], ◌∷◌,
  length, arith, inl, inr, Bool-cases, Option-cases, take, drop, if◌then◌else◌,
}
use qt_sss_shttps.Text.{Text, split, index_of, trimmed}
use qt_sss_shttps.Codec.{Codec}
use qt_sss_shttps.Engine.{Engine}
use qt_sss_shttps.Www.Socket.{Socket, close}
use qt_sss_shttps.Www.Request.{
  WwwRequest, blank_request, first_line, after_first_line, parse_request, fill_request,
  is_null_request,
}
use qt_sss_shttps.Www.Response.{WwwResponse}
use qt_sss_shttps.Www.Response.Closing.{IsPlainFile, Closes, start_sending-Closes}
use qt_sss_shttps.Www.Session.{WwwSession, on_ready_read, accept_request}
use qt_sss_shttps.Www.Server.{WwwServer, is_valid_path}
use qt_sss_shttps.Www.Server.Respond.{
  Machine, prepare, respond, with_server, abort_socket, response404, response301, response200,
  response_file, response_directory_list,
}
use qt_sss_shttps.Handlers.{Handler}
use qt_sss_shttps.Handlers.Handle.{
  Answer, ignore, respond404, respond301, respond_file, respond_directory_list,
}
use qt_sss_shttps.HttpsServer.{on_request}
use qt_sss_shttps.HttpsServer.Polling.{poll, on_next_handler_total}
use qt_sss_shttps.Exchange.{after_timer, give_answer, deliver, exchange}

-- A response as the `respond` methods prepare it.
abbrev IsFresh : Option WwwResponse → Type 0
IsFresh none = Unit
IsFresh (some r) = (r.has_request ≡ true) × (r.buffer_size ≡ 16_000)

prepare-IsFresh :
    (q : Codec) (m : Machine) (s : WwwServer) (target : Text) (a : Answer)
    → IsFresh (prepare q m s target a)
unfolding prepare response404 response301 response200 response_file response_directory_list
prepare-IsFresh q m s target ignore = tt
prepare-IsFresh q m s target respond404 = (refl, refl)
prepare-IsFresh q m s target (respond301 url) = (refl, refl)
prepare-IsFresh q m s target (respond_file path) = elim (Option-cases (m.open_file path)) [
  | inl e ↦ rw (e, response_file) (refl, refl)
  | inr (f, e) ↦ rw (e, response_file) (refl, refl)
]
prepare-IsFresh q m s target (respond_directory_list path) =
    elim (Bool-cases (is_valid_path s path)) [
      | inl e ↦ rw (e, response_directory_list) (refl, refl)
      | inr e ↦ rw (e, response_directory_list) (refl, refl)
    ]

respond-Closes :
    (q : Codec) (m : Machine) (s : WwwServer) (r : WwwResponse) (socket : Socket)
    → ((path : Text) → IsPlainFile (m.open_file path))
    → IsFresh (some r)
    → socket.is_valid ≡ true
    → Closes q (respond q m s r socket)
unfolding respond with_server
respond-Closes q m s r socket p (h, b) v =
    start_sending-Closes q (m.open_file r.path_file) (m.mime_type r.path_file) m.date
      (with_server q s r) socket (p r.path_file) h (rw b (omega arith)) v

give_answer-closes :
    (q : Codec) (m : Machine) (s : WwwServer) (target : Text) (a : Answer) (socket : Socket)
    → ((path : Text) → IsPlainFile (m.open_file path))
    → socket.is_valid ≡ true
    → (n : ℕ) × ((give_answer q m s target n a socket).is_open ≡ false)
unfolding give_answer
give_answer-closes q m s target a socket p v = elim (Option-cases (prepare q m s target a)) [
  | inl e ↦ (0, rw (e, give_answer) (unfold abort_socket close in refl))
  | inr (r, e) ↦
      let (n, o) =
        respond-Closes q m s r socket p (subst IsFresh e (prepare-IsFresh q m s target a)) v in
      (n, rw (e, give_answer) (unfold after_timer in o))
]

fill_request-handler_index :
    (q : Codec) (r : WwwRequest) (rest : Text) (words : List Text)
    → (fill_request q r rest words).handler_index ≡ r.handler_index
unfolding fill_request
fill_request-handler_index q r rest [] = refl
fill_request-handler_index q r rest (a ∷ []) = refl
fill_request-handler_index q r rest (a ∷ b ∷ words) = refl

parse_request-handler_index :
    (q : Codec) (raw : Text) (session : ℕ) → (parse_request q raw session).handler_index ≡ 0
unfolding parse_request
parse_request-handler_index q raw session =
    let next_marker = index_of raw b'\n' in
    fill_request-handler_index q (blank_request raw session) (after_first_line raw next_marker)
      (split (trimmed (first_line raw next_marker)) 32)

accept_request-cases :
    (w : WwwSession) (unread : Text) (r : WwwRequest)
    → let x = accept_request w unread r in
      ((x.got_request ≡ none) × (x.session.socket.is_open ≡ false)) ⊎ (x.got_request ≡ some r)
unfolding accept_request close
accept_request-cases w unread r = elim (Bool-cases (is_null_request r)) [
  | inl e ↦ inl (rw (e, accept_request) (refl, refl))
  | inr e ↦ inr (rw (e, accept_request) refl)
]

on_ready_read-encrypted :
    (q : Codec) (w : WwwSession) (available : Text)
    → w.socket.is_encrypted ≡ true
    → on_ready_read q w available
      ≡ accept_request w
          (drop w.max_request_size available)
          (parse_request q (take w.max_request_size available) w.session_id)
unfolding on_ready_read
on_ready_read-encrypted q w available c =
    ap
      (λ b.
        if not b
        then record { session = w; unread = available; got_request = none }
        else accept_request w (drop w.max_request_size available)
            (parse_request q (take w.max_request_size available) w.session_id))
      c

-- What an encrypted session makes of the bytes: a closed connection, or a request that is new.
on_ready_read-cases :
    (q : Codec) (w : WwwSession) (available : Text)
    → w.socket.is_encrypted ≡ true
    → let x = on_ready_read q w available in
      ((x.got_request ≡ none) × (x.session.socket.is_open ≡ false))
      ⊎ ((r : WwwRequest) × (x.got_request ≡ some r) × (r.handler_index ≡ 0))
on_ready_read-cases q w available c =
    let raw = take w.max_request_size available in
    rw (on_ready_read-encrypted q w available c)
      (elim (accept_request-cases w (drop w.max_request_size available)
        (parse_request q raw w.session_id)) [
          | inl k ↦ inl k
          | inr k ↦
              inr (
                parse_request q raw w.session_id,
                k,
                parse_request-handler_index q raw w.session_id,
              )
        ])

on_request-total :
    (e : Engine) (hs : List Handler) (r : WwwRequest)
    → length hs ≤ 255
    → r.handler_index ≡ 0
    → on_request e hs (suc (length hs)) true r ≡ some (poll e hs r)
unfolding on_request
on_request-total e hs r l z = on_next_handler_total e hs r l z

-- Whatever bytes arrive over a valid encrypted connection, with at most 255 handlers and files
-- that open at their start and are not sequential: the polling of the handlers ends, and after
-- some number of timer events, with reads and writes that succeed, the connection is closed.
pub exchange-closes :
    (q : Codec) (e : Engine) (m : Machine) (s : WwwServer) (hs : List Handler) (w : WwwSession)
    (available : Text)
    → ((path : Text) → IsPlainFile (m.open_file path))
    → length hs ≤ 255
    → w.socket.is_encrypted ≡ true
    → w.socket.is_valid ≡ true
    → (n : ℕ) × (t : Socket) × (exchange q e m s hs w available n ≡ some t) × (t.is_open ≡ false)
unfolding exchange deliver
exchange-closes q e m s hs w available p l c v = elim (on_ready_read-cases q w available c) [
  | inl (g, o) ↦ (0, (on_ready_read q w available).session.socket, rw (g, exchange) refl, o)
  | inr (r, g, z) ↦
      let a = poll e hs r in
      let (n, o) = give_answer-closes q m s (e.url_path a.0.target_original) a.1 w.socket p v in
      (
        n,
        give_answer q m s (e.url_path a.0.target_original) n a.1 w.socket,
        rw (g, exchange) (rw (c, on_request-total e hs r l z) refl),
        o,
      )
]
