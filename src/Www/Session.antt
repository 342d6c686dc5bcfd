-- ===== src/Www/Session.antt =====
-- WWWSsession.h and WWWSsession.cpp: one connection, from its socket to its request.
use qt_sss_shttps.Common.{ℕ, Option, none, some, not, if◌then◌else◌, take, drop}
use qt_sss_shttps.Text.{Text}
use qt_sss_shttps.Codec.{Codec}
use qt_sss_shttps.Www.Socket.{Socket, close}
use qt_sss_shttps.Www.Request.{WwwRequest, parse_request, is_null_request}

-- `peer` is the address that the socket reports.
pub record WwwSession : Type 0 where
  pub session_id : ℕ
  pub peer : Text
  pub socket : Socket
  pub request : Option WwwRequest
  pub max_request_size : ℕ

-- The constructor, for a socket that is not null.
abbrev pub new_session : Text → Socket → WwwSession
new_session peer socket = record {
  session_id = 0;
  peer = peer;
  socket = socket;
  request = none;
  max_request_size = 2_000_000;
}

-- What a call of `onReadyRead` leaves: the session, the bytes that were not read, and the request
-- that is passed on by `gotRequest`.
pub record ReadResult : Type 0 where
  pub session : WwwSession
  pub unread : Text
  pub got_request : Option WwwRequest

unfoldable pub accept_request : WwwSession → Text → WwwRequest → ReadResult
accept_request s unread r =
    if is_null_request r
    then record {
      session = record s { socket = close s.socket };
      unread = unread;
      got_request = none;
    }
    else record { session = record s { request = some r }; unread = unread; got_request = some r }

-- `onReadyRead`; `available` is what the socket has buffered.
unfoldable pub on_ready_read : Codec → WwwSession → Text → ReadResult
unfolding accept_request
on_ready_read q s available =
    if not s.socket.is_encrypted
    then record { session = s; unread = available; got_request = none }
    else accept_request s (drop s.max_request_size available)
        (parse_request q (take s.max_request_size available) s.session_id)
