-- ===== src/Www/Socket.antt =====
-- What the program sees of a `QSslSocket`: whether it is valid, open and encrypted, and the bytes
-- that were written to it while it was open.
use qt_sss_shttps.Common.{Bool, false, ◌++◌, if◌then◌else◌}
use qt_sss_shttps.Text.{Text}

pub record Socket : Type 0 where
  pub is_valid : Bool
  pub is_open : Bool
  pub is_encrypted : Bool
  pub sent : Text

unfoldable pub write : Text → Socket → Socket
write bytes s = if s.is_open then record s { sent = s.sent ++ bytes } else s

-- `flush` hands over what was written; `close` after it ends the connection.
unfoldable pub close : Socket → Socket
close s = record s { is_open = false }
