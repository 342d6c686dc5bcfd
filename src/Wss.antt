-- ===== src/Wss.antt =====
-- WSSserver.h, WSSserver.cpp and WSSsession.cpp: the web sockets of the application control module.
pub mod Admission
pub mod Messages
use qt_sss_shttps.Common.{
  ℕ, ◌%◌, ◌^◌, Bool, true, false, Option, none, some, not, if◌then◌else◌, List, [], ◌∷◌, ◌++◌, leb,
  length, ◌==◌,
}
use qt_sss_shttps.Text.{Text, contains}

-- A `QWebSocket`: the object that it is, and the address of its peer. A session is known by its
-- socket.
pub record WebSocket : Type 0 where
  pub object_id : ℕ
  pub peer : Text

-- The `QWebSocketServer`: what `setMaxPendingConnections` was last called with, if it was, and
-- whether it listens.
pub record Listener : Type 0 where
  pub max_pending : Option ℕ
  pub is_open : Bool

-- `listener`: `none` while `pWebSocketServer` is null.
pub record WssServer : Type 0 where
  pub list_is_black : Bool
  pub list_bw : List Text
  pub listener : Option Listener
  pub host : Text
  pub max_connections : ℕ
  pub port : ℕ
  pub sessions : List WebSocket

-- The constructor.
abbrev pub new_wss_server : WssServer
new_wss_server = record {
  list_is_black = false;
  list_bw = [];
  listener = none;
  host = [];
  max_connections = 25;
  port = 0;
  sessions = [];
}

-- `init`; the certificate and the key are handed to the listener and are not modelled.
unfoldable pub init_listener : Text → ℕ → WssServer → WssServer
init_listener host port s = record s {
  host = host;
  port = port;
  listener = some (record { max_pending = none; is_open = false });
}

-- `setMaxConnections(const int iMax)`, for a value that is not negative.
unfoldable pub limit_connections : ℕ → WssServer → WssServer
limit_connections n s = record s {
  max_connections = n % 2 ^ 16;
  listener = elim s.listener [ none ↦ none | some l ↦ some (record l { max_pending = some n }) ];
}

unfoldable pub is_listening : WssServer → Bool
is_listening s = elim s.listener [ none ↦ false | some l ↦ l.is_open ]

unfoldable pub is_barred : WssServer → Text → Bool
is_barred s ip = if s.list_is_black then contains s.list_bw ip else not (contains s.list_bw ip)

-- The two tests of `onNewConnection`.
unfoldable pub is_refused : WssServer → WebSocket → Bool
is_refused s w = if leb s.max_connections (length s.sessions) then true else is_barred s w.peer

unfoldable pub append_session : WebSocket → WssServer → WssServer
append_session w s = record s { sessions = s.sessions ++ (w ∷ []) }

-- What `onNewConnection` leaves: the server, the connections that are still pending, and the one
-- that it closed and deleted.
pub record Admitted : Type 0 where
  pub server : WssServer
  pub pending : List WebSocket
  pub closed : Option WebSocket

-- The loop of `onNewConnection` over the pending connections; it returns at the first one that is
-- refused.
unfoldable pub on_new_connection : List WebSocket → WssServer → Admitted
on_new_connection [] s = record { server = s; pending = []; closed = none }
on_new_connection (w ∷ ws) s =
    let rest = on_new_connection ws (append_session w s) in
    if is_refused s w then record { server = s; pending = ws; closed = some w } else rest

-- `apSessions.removeOne(pClient)`.
unfoldable pub remove_socket : ℕ → List WebSocket → List WebSocket
remove_socket id [] = []
remove_socket id (w ∷ ws) = if w.object_id == id then ws else w ∷ remove_socket id ws

unfoldable pub on_socket_disconnected : ℕ → WssServer → WssServer
on_socket_disconnected id s = record s { sessions = remove_socket id s.sessions }

-- `start`, for what `listen` returns; `none` is a call on the null `pWebSocketServer`.
unfoldable pub start_listening : (listens : Bool) → WssServer → Option WssServer
start_listening listens s = elim s.listener [
  | none ↦ none
  | some l ↦
      some (if listens then record s { listener = some (record l { is_open = true }) } else s)
]
