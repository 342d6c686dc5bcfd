-- ===== src/Www/Server.antt =====
-- WWWSserver.h and WWWSserver.cpp: the listening server, its sessions and its answers.
pub mod Sessions
pub mod Respond
use qt_sss_shttps.Common.{
  ℕ, ◌+◌, ◌%◌, ◌^◌, Bool, true, false, Option, none, some, not, ◌||◌, if◌then◌else◌, List, [], ◌∷◌,
  ◌++◌, leb, length, ◌==◌,
}
use qt_sss_shttps.Text.{Text, codes, contains, starts_with}
use qt_sss_shttps.Www.Socket.{Socket}
use qt_sss_shttps.Www.Session.{WwwSession, new_session}

-- `has_tcp_server`: `pTCPserver` is not null.
pub record WwwServer : Type 0 where
  pub list_is_black : Bool
  pub base_paths : List Text
  pub list_bw : List Text
  pub has_tcp_server : Bool
  pub host : Text
  pub server_string : Text
  pub session_counter : ℕ
  pub max_connections : ℕ
  pub max_request_size : ℕ
  pub port : ℕ
  pub sessions : List WwwSession

-- The constructor.
abbrev pub new_server : WwwServer
new_server = record {
  list_is_black = false;
  base_paths = [];
  list_bw = [];
  has_tcp_server = false;
  host = [];
  server_string = codes "SwissalpS WWWSserver";
  session_counter = 0;
  max_connections = 25;
  max_request_size = 2_000_000;
  port = 0;
  sessions = [];
}

-- `init`; the certificate and the key are handed to each socket and are not modelled.
unfoldable pub init : Text → ℕ → WwwServer → WwwServer
init host port s = record s { host = host; port = port }

-- `setMaxConnections(const int iMax)`, for a value that is not negative: `quint16(iMax)`.
unfoldable pub set_max_connections : ℕ → WwwServer → WwwServer
set_max_connections n s = record s { max_connections = n % 2 ^ 16 }

unfoldable pub is_blocked_ip : WwwServer → Text → Bool
is_blocked_ip s ip = if s.list_is_black then contains s.list_bw ip else not (contains s.list_bw ip)

unfoldable pub has_prefix : List Text → Text → Bool
has_prefix [] path = false
has_prefix (base ∷ bases) path = starts_with path base || has_prefix bases path

unfoldable pub is_valid_path : WwwServer → Text → Bool
is_valid_path s path = has_prefix s.base_paths path

-- The session of an accepted connection.
unfoldable pub add_session : Text → Socket → WwwServer → WwwServer
add_session peer socket s = record s {
  session_counter = (s.session_counter + 1) % 2 ^ 64;
  sessions =
      s.sessions
      ++ (record (new_session peer socket) {
        session_id = s.session_counter;
        max_request_size = s.max_request_size;
      }
          ∷ []);
}

-- `incomingConnection`. `handed_over` is what `setSocketDescriptor` returns for the new socket, and
-- `peer` its address.
unfoldable pub incoming_connection : (handed_over : Bool) → Text → Socket → WwwServer → WwwServer
incoming_connection handed_over peer socket s =
    if not handed_over
    then s
    else if is_blocked_ip s peer || leb s.max_connections (length s.sessions)
    then s
    else add_session peer socket s

-- `apSessions.removeOne(pSession)`; the session is found by its identifier.
unfoldable pub remove_session : ℕ → List WwwSession → List WwwSession
remove_session id [] = []
remove_session id (w ∷ ws) = if w.session_id == id then ws else w ∷ remove_session id ws

unfoldable pub on_disconnected : ℕ → WwwServer → WwwServer
unfolding remove_session
on_disconnected id s = record s { sessions = remove_session id s.sessions }

-- `start` where the call of `listen` succeeds or not. The message of the failure reads
-- `pTCPserver->errorString()`, which is a fault on a null pointer.
pub data StartResult : Type 0 where
  listening not_listening null_pointer : StartResult

unfoldable pub start : (listens : Bool) → WwwServer → StartResult
start listens s =
    if listens then listening else if s.has_tcp_server then not_listening else null_pointer

-- The destructor closes `pTCPserver`: `none` is the call of `close` through a null pointer, and
-- otherwise what the program goes on with.
unfoldable pub destroy {ℓ} : {A : Type ℓ} → WwwServer → A → Option A
destroy s a = if s.has_tcp_server then some a else none
