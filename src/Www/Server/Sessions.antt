-- ===== src/Www/Server/Sessions.antt =====
-- The sessions of a server over any history of connections.
use qt_sss_shttps.Common.{
  ℕ, ◌+◌, ◌%◌, ◌^◌, ◌≤◌, ◌<◌, ◌≡◌, Bool, false, List, [], ◌∷◌, ◌++◌, arith, All, All-append,
  All-map, length, length-append, leb,
}
use qt_sss_shttps.Text.{Text}
use qt_sss_shttps.Www.Socket.{Socket}
use qt_sss_shttps.Www.Session.{WwwSession, new_session}
use qt_sss_shttps.Www.Server.{
  WwwServer, is_blocked_ip, add_session, incoming_connection, remove_session, on_disconnected,
}

-- The identifiers are distinct: each is below those that come after it.
abbrev pub IsAscending : List WwwSession → Type 0
IsAscending [] = Unit
IsAscending (w ∷ ws) = All (λ v. w.session_id < v.session_id) ws × IsAscending ws

-- No more sessions than allowed, none of a blocked address, with distinct identifiers that were
-- all given out before.
pub record IsSound (s : WwwServer) : Type 0 where
  pub bounded : length s.sessions ≤ s.max_connections
  pub allowed : All (λ w. is_blocked_ip s w.peer ≡ false) s.sessions
  pub given_out : All (λ w. w.session_id < s.session_counter) s.sessions
  pub distinct : IsAscending s.sessions

IsAscending-append :
    (ws : List WwwSession) (w : WwwSession)
    → All (λ v. v.session_id < w.session_id) ws
    → IsAscending ws
    → IsAscending (ws ++ (w ∷ []))
IsAscending-append [] w b a = (tt, tt)
IsAscending-append (v ∷ ws) w (l, b) (h, a) = (
  All-append (λ u. v.session_id < u.session_id) ws (w ∷ []) h (l, tt),
  IsAscending-append ws w b a,
)

module _ (P : WwwSession → Type 0) where
  remove_session-All : (id : ℕ) (ws : List WwwSession) → All P ws → All P (remove_session id ws)
  unfolding remove_session
  remove_session-All id [] a = tt
  remove_session-All id (w ∷ ws) (p, a) = ground (arith, remove_session-All id ws a, a, p)

remove_session-IsAscending :
    (id : ℕ) (ws : List WwwSession) → IsAscending ws → IsAscending (remove_session id ws)
unfolding remove_session
remove_session-IsAscending id [] a = tt
remove_session-IsAscending id (w ∷ ws) (h, a) = ground (
  arith,
  remove_session-IsAscending id ws a,
  remove_session-All (λ v. w.session_id < v.session_id) id ws h,
  a,
)

length-remove_session : (id : ℕ) (ws : List WwwSession) → length (remove_session id ws) ≤ length ws
unfolding remove_session
length-remove_session id [] = omega arith
length-remove_session id (w ∷ ws) = ground (arith, length-remove_session id ws)

on_disconnected-IsSound : (id : ℕ) (s : WwwServer) → IsSound s → IsSound (on_disconnected id s)
unfolding on_disconnected is_blocked_ip
on_disconnected-IsSound id s i = record {
  bounded = omega (arith, length-remove_session id s.sessions, i.bounded);
  allowed = remove_session-All _ id s.sessions i.allowed;
  given_out = remove_session-All _ id s.sessions i.given_out;
  distinct = remove_session-IsAscending id s.sessions i.distinct;
}

next_counter : (n i : ℕ) → n + 1 < 2 ^ 64 → i ≤ n → i < (n + 1) % 2 ^ 64
next_counter n i c h = omega arith

added-IsSound :
    (peer : Text) (socket : Socket) (s : WwwServer)
    → s.session_counter + 1 < 2 ^ 64
    → is_blocked_ip s peer ≡ false
    → leb s.max_connections (length s.sessions) ≡ false
    → IsSound s
    → IsSound (add_session peer socket s)
unfolding add_session is_blocked_ip
added-IsSound peer socket s c blocked full i = record {
  bounded = ground (arith, length-append s.sessions (added ∷ []), full);
  allowed = All-append _ s.sessions _ i.allowed (blocked, tt);
  given_out =
      All-append _ s.sessions _
        (All-map _ _ s.sessions
          (λ w. λ (l : w.session_id < s.session_counter).
            next_counter s.session_counter w.session_id c (omega (arith, l)))
          i.given_out)
        (next_counter s.session_counter s.session_counter c (omega arith), tt);
  distinct = IsAscending-append s.sessions _ i.given_out i.distinct;
}
  where
    added : WwwSession
    added = record (new_session peer socket) {
      session_id = s.session_counter;
      max_request_size = s.max_request_size;
    }

incoming_connection-IsSound :
    (ok : Bool) (peer : Text) (socket : Socket) (s : WwwServer)
    → s.session_counter + 1 < 2 ^ 64
    → IsSound s
    → IsSound (incoming_connection ok peer socket s)
unfolding incoming_connection
incoming_connection-IsSound ok peer socket s c i = ground (
  arith,
  added-IsSound peer socket s c,
  i,
  is_blocked_ip s peer,
  leb s.max_connections (length s.sessions),
)

-- What the event loop delivers to a server.
pub data Event : Type 0 where
  connects : (handed_over : Bool) → Text → Socket → Event
  disconnects : ℕ → Event

unfoldable pub step : Event → WwwServer → WwwServer
step (connects ok peer socket) s = incoming_connection ok peer socket s
step (disconnects id) s = on_disconnected id s

unfoldable pub run : List Event → WwwServer → WwwServer
run [] s = s
run (e ∷ es) s = run es (step e s)

step-session_counter :
    (e : Event) (s : WwwServer)
    → s.session_counter + 1 < 2 ^ 64
    → (step e s).session_counter ≤ s.session_counter + 1
unfolding step incoming_connection on_disconnected add_session
step-session_counter (connects ok peer socket) s c = ground arith
step-session_counter (disconnects id) s c = ground arith

step-IsSound :
    (e : Event) (s : WwwServer) → s.session_counter + 1 < 2 ^ 64 → IsSound s → IsSound (step e s)
unfolding step
step-IsSound (connects ok peer socket) s c i = incoming_connection-IsSound ok peer socket s c i
step-IsSound (disconnects id) s c i = on_disconnected-IsSound id s i

-- Over any history of connections and disconnections that is shorter than what is left of the
-- 64-bit session counter, a sound server stays sound: no more sessions than allowed, none of a
-- blocked address, all identifiers distinct and given out before.
pub run-IsSound :
    (es : List Event) (s : WwwServer)
    → s.session_counter + length es < 2 ^ 64
    → IsSound s
    → IsSound (run es s)
unfolding run
run-IsSound [] s c i = i
run-IsSound (e ∷ es) s c i =
    run-IsSound es (step e s) (omega (arith, step-session_counter e s (omega (arith, c)), c))
      (step-IsSound e s (omega (arith, c)) i)
