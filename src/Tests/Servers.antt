-- ===== src/Tests/Servers.antt =====
-- The sessions and answers of a server on concrete inputs.
use qt_sss_shttps.Common.{◌≡◌, true, none, some, List, [], ◌∷◌, arith}
use qt_sss_shttps.Text.{codes}
use qt_sss_shttps.Www.Socket.{Socket}
use qt_sss_shttps.Www.Server.{WwwServer, new_server}
use qt_sss_shttps.Www.Server.Sessions.{IsSound, Event, connects, disconnects, run, run-IsSound}
use qt_sss_shttps.Www.Server.Respond.{Machine, prepare}
use qt_sss_shttps.Www.Server.Respond.Prepared.{sent_status, prepare-sent_status}
use qt_sss_shttps.Handlers.Handle.{respond_file}
use qt_sss_shttps.Tests.Samples.{ascii_codec}

abbrev pub open_socket : Socket
open_socket = record { is_valid = true; is_open = true; is_encrypted = true; sent = [] }

abbrev blocking_server : WwwServer
blocking_server = record new_server {
  list_is_black = true;
  list_bw = codes "10.0.0.1" ∷ [];
  max_connections = 1;
}

abbrev pub history : List Event
history =
    connects true (codes "10.0.0.2") open_socket
    ∷ connects true (codes "10.0.0.3") open_socket
    ∷ disconnects 0
    ∷ connects true (codes "10.0.0.1") open_socket
    ∷ []

run-IsSound_example : IsSound (run history blocking_server)
run-IsSound_example =
    run-IsSound history blocking_server (omega arith)
      (record { bounded = omega arith; allowed = tt; given_out = tt; distinct = tt })

abbrev pub bare_machine : Machine
bare_machine = record {
  entry_list = λ path. [];
  open_file = λ path. none;
  mime_type = λ path. codes "text/plain";
  date = codes "Mon, 1 Jan 2018 00:00:00 GMT";
}

prepare-sent_status_example :
    sent_status ascii_codec bare_machine new_server
      (prepare ascii_codec bare_machine new_server (codes "/a") (respond_file (codes "/a")))
    ≡ some 404
prepare-sent_status_example =
    prepare-sent_status ascii_codec bare_machine new_server (codes "/a") (respond_file (codes "/a"))
