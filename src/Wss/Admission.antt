-- ===== src/Wss/Admission.antt =====
-- Which pending connections `onNewConnection` takes, and the sessions over any history.
use qt_sss_shttps.Common.{
  ℕ, ◌≤◌, ◌<◌, ◌||◌, leb, Bool, ◌≡◌, refl, ap, ◌∙◌, sym, true, false, Option, none, some, List, [],
  ◌∷◌, ◌++◌, arith, All, All-append, length, length-append, append_assoc, append-nil, Bool-cases,
  inl, inr,
}
use qt_sss_shttps.Wss.{
  WebSocket, WssServer, is_barred, is_refused, append_session, Admitted, on_new_connection,
  remove_socket, on_socket_disconnected,
}

-- No more sessions than allowed, none of a barred address.
pub record IsWithin (s : WssServer) : Type 0 where
  pub bounded : length s.sessions ≤ s.max_connections
  pub allowed : All (λ w. is_barred s w.peer ≡ false) s.sessions

unfoldable pub closed_list : Option WebSocket → List WebSocket
closed_list none = []
closed_list (some w) = w ∷ []

-- The server with those sessions added.
unfoldable pub with_sessions : WssServer → List WebSocket → WssServer
with_sessions s taken = record s { sessions = s.sessions ++ taken }

-- The server has room for the session, and its address is not barred.
abbrev pub IsWelcome : WssServer → WebSocket → Type 0
IsWelcome s w = (length s.sessions < s.max_connections) × (is_barred s w.peer ≡ false)

-- Each of the connections is welcome to the server that has taken those before it.
abbrev pub AreWelcome : WssServer → List WebSocket → Type 0
AreWelcome s [] = Unit
AreWelcome s (w ∷ ws) = IsWelcome s w × AreWelcome (append_session w s) ws

-- The server is full, or the address is barred.
abbrev pub is_unwelcome : WssServer → WebSocket → Bool
is_unwelcome s w = leb s.max_connections (length s.sessions) || is_barred s w.peer

-- The pending connections in their order: those that are taken, the one that is closed, and those
-- that are left. What is closed would go past the limit or has a barred address; where nothing is
-- closed nothing is left.
pub record IsAdmission (ws : List WebSocket) (s : WssServer) (a : Admitted) : Type 0 where
  pub taken : List WebSocket
  pub order : ws ≡ taken ++ (closed_list a.closed ++ a.pending)
  pub added : a.server ≡ with_sessions s taken
  pub welcome : AreWelcome s taken
  pub refused : All (λ w. is_unwelcome a.server w ≡ true) (closed_list a.closed)
  pub drained : a.closed ≡ none → a.pending ≡ []

with_sessions-nil : (s : WssServer) → s ≡ with_sessions s []
unfolding with_sessions
with_sessions-nil s = λ i. record s { sessions = sym (append-nil s.sessions) i }

with_sessions-cons :
    (s : WssServer) (w : WebSocket) (ws : List WebSocket)
    → with_sessions (append_session w s) ws ≡ with_sessions s (w ∷ ws)
unfolding with_sessions append_session
with_sessions-cons s w ws = λ i. record s { sessions = append_assoc s.sessions (w ∷ []) ws i }

refused-unwelcome :
    (s : WssServer) (w : WebSocket) → is_refused s w ≡ true → is_unwelcome s w ≡ true
unfolding is_refused
refused-unwelcome s w e = ground (arith, e)

refused-IsWelcome : (s : WssServer) (w : WebSocket) → is_refused s w ≡ false → IsWelcome s w
unfolding is_refused
refused-IsWelcome s w e = (ground (arith, e), ground (arith, e))

refused-barred :
    (s : WssServer) (w : WebSocket) → is_refused s w ≡ false → is_barred s w.peer ≡ false
unfolding is_refused
refused-barred s w e = ground arith

IsAdmission-cons :
    (w : WebSocket) (ws : List WebSocket) (s : WssServer) (a : Admitted)
    → is_refused s w ≡ false
    → IsAdmission ws (append_session w s) a
    → IsAdmission (w ∷ ws) s a
unfolding append_session is_barred
IsAdmission-cons w ws s a e rest = record {
  taken = w ∷ rest.taken;
  order = ap (λ t. w ∷ t) rest.order;
  added = rest.added ∙ with_sessions-cons s w rest.taken;
  refused = rest.refused;
  drained = rest.drained;
  welcome = (refused-IsWelcome s w e, rest.welcome);
}

-- Of the pending connections onNewConnection takes those before the first that is refused, in
-- their order, closes that one, and leaves the others pending: for each of those it takes there
-- is still room below the limit when it is taken, and its address is not barred; the one it
-- closes is barred or finds the server full; and where it closes none, none is left.
pub on_new_connection-IsAdmission :
    (ws : List WebSocket) (s : WssServer) → IsAdmission ws s (on_new_connection ws s)
unfolding on_new_connection closed_list
on_new_connection-IsAdmission [] s = record {
  taken = [];
  order = refl;
  added = with_sessions-nil s;
  refused = tt;
  drained = λ e. refl;
  welcome = tt;
}
on_new_connection-IsAdmission (w ∷ ws) s = elim (Bool-cases (is_refused s w)) [
  | inl e ↦
      rw (e, on_new_connection)
        (record {
          taken = [];
          order = refl;
          added = with_sessions-nil s;
          refused = (refused-unwelcome s w e, tt);
          drained = λ d. absurd (cc d);
          welcome = tt;
        })
  | inr e ↦
      rw (e, on_new_connection)
        (IsAdmission-cons w ws s _ e (on_new_connection-IsAdmission ws (append_session w s)))
]

append_session-IsWithin :
    (w : WebSocket) (s : WssServer)
    → is_refused s w ≡ false
    → IsWithin s
    → IsWithin (append_session w s)
unfolding append_session is_barred is_refused
append_session-IsWithin w s e h = record {
  bounded = ground (arith, length-append s.sessions (w ∷ []), e);
  allowed = All-append _ s.sessions (w ∷ []) h.allowed (refused-barred s w e, tt);
}

on_new_connection-IsWithin :
    (ws : List WebSocket) (s : WssServer) → IsWithin s → IsWithin (on_new_connection ws s).server
unfolding on_new_connection
on_new_connection-IsWithin [] s h = h
on_new_connection-IsWithin (w ∷ ws) s h = elim (Bool-cases (is_refused s w)) [
  | inl e ↦ rw (e, on_new_connection) h
  | inr e ↦
      rw (e, on_new_connection)
        (on_new_connection-IsWithin ws (append_session w s) (append_session-IsWithin w s e h))
]

remove_socket-All :
    (P : WebSocket → Type 0) (id : ℕ) (ws : List WebSocket) → All P ws → All P (remove_socket id ws)
unfolding remove_socket
remove_socket-All P id [] a = tt
remove_socket-All P id (w ∷ ws) (p, a) = ground (arith, remove_socket-All P id ws a, a, p)

length-remove_socket : (id : ℕ) (ws : List WebSocket) → length (remove_socket id ws) ≤ length ws
unfolding remove_socket
length-remove_socket id [] = omega arith
length-remove_socket id (w ∷ ws) = ground (arith, length-remove_socket id ws)

on_socket_disconnected-IsWithin :
    (id : ℕ) (s : WssServer) → IsWithin s → IsWithin (on_socket_disconnected id s)
unfolding on_socket_disconnected is_barred
on_socket_disconnected-IsWithin id s h = record {
  bounded = omega (arith, length-remove_socket id s.sessions, h.bounded);
  allowed = remove_socket-All _ id s.sessions h.allowed;
}

-- A server with its queue of pending connections. A connection that completes its handshake joins
-- the queue, and the slot runs at once.
pub record Listening : Type 0 where
  pub server : WssServer
  pub pending : List WebSocket

pub data Event : Type 0 where
  arrives : WebSocket → Event
  disconnects : ℕ → Event

unfoldable pub step : Event → Listening → Listening
step (arrives w) l =
    let a = on_new_connection (l.pending ++ (w ∷ [])) l.server in
    record { server = a.server; pending = a.pending }
step (disconnects id) l = record l { server = on_socket_disconnected id l.server }

unfoldable pub run : List Event → Listening → Listening
run [] l = l
run (e ∷ es) l = run es (step e l)

pub record IsIdle (l : Listening) : Type 0 where
  pub within : IsWithin l.server
  pub empty : l.pending ≡ []

arrives-empty :
    (w : WebSocket) (s : WssServer) (ws : List WebSocket)
    → ws ≡ []
    → (on_new_connection (ws ++ (w ∷ [])) s).pending ≡ []
unfolding on_new_connection
arrives-empty w s [] e = ground arith
arrives-empty w s (v ∷ ws) e = absurd (cc e)

step-IsIdle : (e : Event) (l : Listening) → IsIdle l → IsIdle (step e l)
unfolding step
step-IsIdle (arrives w) l h = record {
  within = on_new_connection-IsWithin (l.pending ++ (w ∷ [])) l.server h.within;
  empty = arrives-empty w l.server l.pending h.empty;
}
step-IsIdle (disconnects id) l h = record {
  within = on_socket_disconnected-IsWithin id l.server h.within;
  empty = h.empty;
}

-- Over any history of web sockets that arrive one by one and disconnect, a server that starts
-- within its limit, with no barred peer and with nothing pending, is so again after it: the
-- return from the loop of onNewConnection leaves no connection behind.
pub run-IsIdle : (es : List Event) (l : Listening) → IsIdle l → IsIdle (run es l)
unfolding run
run-IsIdle [] l h = h
run-IsIdle (e ∷ es) l h = run-IsIdle es (step e l) (step-IsIdle e l h)
