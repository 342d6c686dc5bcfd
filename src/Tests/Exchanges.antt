-- ===== src/Tests/Exchanges.antt =====
-- A whole exchange on a concrete input.
use qt_sss_shttps.Common.{ℕ, ◌≡◌, refl, false, some, arith}
use qt_sss_shttps.Text.{codes}
use qt_sss_shttps.Www.Socket.{Socket}
use qt_sss_shttps.Www.Session.{new_session}
use qt_sss_shttps.Www.Server.{new_server}
use qt_sss_shttps.Exchange.{exchange}
use qt_sss_shttps.Exchange.Closes.{exchange-closes}
use qt_sss_shttps.Tests.Samples.{ascii_codec, prefix_engine}
use qt_sss_shttps.Tests.Polled.{handlers}
use qt_sss_shttps.Tests.Servers.{open_socket, bare_machine}

exchange-closes_example :
    (n : ℕ) × (t : Socket) × (exchange ascii_codec prefix_engine bare_machine new_server handlers
        (new_session (codes "10.0.0.2") open_socket)
        (codes "GET /a HTTP/1.1\r\n\r\n")
        n
      ≡ some t)
    × (t.is_open ≡ false)
exchange-closes_example =
    exchange-closes ascii_codec prefix_engine bare_machine new_server handlers
      (new_session (codes "10.0.0.2") open_socket) (codes "GET /a HTTP/1.1\r\n\r\n") (λ path. tt)
      (omega arith) refl refl
