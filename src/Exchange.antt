-- ===== src/Exchange.antt =====
-- One exchange: what a session reads goes to the module, and its answer to the server, as the
-- signals of WWWSsession, WWWSserver and ModuleHTTPSserver connect them.
pub mod Closes
use qt_sss_shttps.Common.{ℕ, suc, Option, none, some, List, length}
use qt_sss_shttps.Text.{Text}
use qt_sss_shttps.Codec.{Codec}
use qt_sss_shttps.Engine.{Engine}
use qt_sss_shttps.Www.Socket.{Socket}
use qt_sss_shttps.Www.Request.{WwwRequest}
use qt_sss_shttps.Www.Response.{WwwResponse}
use qt_sss_shttps.Www.Response.Sending.{run_timer}
use qt_sss_shttps.Www.Session.{WwwSession, on_ready_read}
use qt_sss_shttps.Www.Server.{WwwServer}
use qt_sss_shttps.Www.Server.Respond.{Machine, prepare, respond, abort_socket}
use qt_sss_shttps.Handlers.{Handler}
use qt_sss_shttps.Handlers.Handle.{Answer}
use qt_sss_shttps.HttpsServer.{on_request}

-- The timer runs for a number of events after a response was started.
unfoldable pub after_timer : Codec → ℕ → WwwResponse × Socket → Socket
after_timer q ticks (r, socket) = (run_timer q ticks r socket).1

-- `onIgnore`, `onRespond404`, `onRespond301`, `onRespondDirectoryList` and `onRespondFile`, which call
-- the server. `target` is the path of the request's original target.
unfoldable pub give_answer :
    Codec → Machine → WwwServer → (target : Text) → ℕ → Answer → Socket → Socket
give_answer q m s target ticks a socket = elim (prepare q m s target a) [
  | none ↦ abort_socket socket
  | some r ↦ after_timer q ticks (respond q m s r socket)
]

unfoldable pub deliver :
    Codec → Engine → Machine → WwwServer → ℕ → Socket → Option (WwwRequest × Answer) → Option Socket
deliver q e m s ticks socket none = none
deliver q e m s ticks socket (some (r, a)) =
    some (give_answer q m s (e.url_path r.target_original) ticks a socket)

-- The socket of a session after bytes arrived, the request in them was polled and its answer was
-- sent; `none` where the polling does not end.
unfoldable pub exchange :
    Codec
    → Engine
    → Machine
    → WwwServer
    → List Handler
    → WwwSession
    → (available : Text) → ℕ
    → Option Socket
exchange q e m s hs w available ticks = elim ((on_ready_read q w available).got_request) [
  | none ↦ some (on_ready_read q w available).session.socket
  | some r ↦
      deliver q e m s ticks w.socket (on_request e hs (suc (length hs)) w.socket.is_encrypted r)
]
