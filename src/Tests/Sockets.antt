-- ===== src/Tests/Sockets.antt =====
-- The web sockets and the log-in on concrete inputs.
use qt_sss_shttps.Common.{
  ◌≡◌, ◌↔◌, refl, true, none, some, Option, List, [], ◌∷◌, arith, if◌then◌else◌,
}
use qt_sss_shttps.Text.{Text, codes, text_eq}
use qt_sss_shttps.Json.{Json, Fields, end, field, str, object}
use qt_sss_shttps.Wss.{WebSocket, WssServer, new_wss_server, on_new_connection}
use qt_sss_shttps.Wss.Admission.{
  IsAdmission, on_new_connection-IsAdmission, Listening, Event, arrives, disconnects, run, IsIdle,
  run-IsIdle,
}
use qt_sss_shttps.AppControl.Login.{answer_message, IsLogin, granted, answer_message-granted}
use qt_sss_shttps.Tests.Samples.{ascii_codec}
use qt_sss_shttps.Tests.Modules.{module_conf}

abbrev small_server : WssServer
small_server = record new_wss_server {
  list_is_black = true;
  list_bw = codes "10.0.0.1" ∷ [];
  max_connections = 1;
}

abbrev socket_of : Text → WebSocket
socket_of peer = record { object_id = 7; peer = peer }

abbrev queue : List WebSocket
queue =
    socket_of (codes "10.0.0.2") ∷ socket_of (codes "10.0.0.3") ∷ socket_of (codes "10.0.0.4") ∷ []

on_new_connection-IsAdmission_example :
    IsAdmission queue small_server (on_new_connection queue small_server)
on_new_connection-IsAdmission_example = on_new_connection-IsAdmission queue small_server

abbrev events : List Event
events =
    arrives (socket_of (codes "10.0.0.2"))
    ∷ arrives (socket_of (codes "10.0.0.3"))
    ∷ disconnects 7
    ∷ arrives (socket_of (codes "10.0.0.1"))
    ∷ []

abbrev idle_server : Listening
idle_server = record { server = small_server; pending = [] }

run-IsIdle_example : IsIdle (run events idle_server)
run-IsIdle_example =
    run-IsIdle events idle_server
      (record { within = record { bounded = omega arith; allowed = tt }; empty = refl })

abbrev login_fields : Fields
login_fields = field (codes "command") (str (codes "login")) (
    field (codes "arguments")
      (object (
        field (codes "user") (str (codes "admin")) (
          field (codes "password") (str (codes "-"))
            (field (codes "nonce") (str (codes "x")) end))))
      end)

abbrev parse_login : Text → Option Json
parse_login t = if text_eq t (codes "{}") then some (object login_fields) else none

answer_message-granted_example :
    (answer_message ascii_codec parse_login module_conf true (codes "{}") ≡ some granted)
    ↔ ((true ≡ true) × IsLogin ascii_codec parse_login module_conf (codes "{}"))
answer_message-granted_example =
    answer_message-granted ascii_codec parse_login module_conf true (codes "{}")
