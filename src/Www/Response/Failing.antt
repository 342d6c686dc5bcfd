-- ===== src/Www/Response/Failing.antt =====
-- A file whose reads and writes may fail.
use qt_sss_shttps.Common.{
  ◌+◌, ◌≤◌, ◌<◌, ◌≡◌, refl, true, false, some, List, [], ◌∷◌, arith, leb, Bool-cases, inl, inr,
  length,
}
use qt_sss_shttps.Codec.{Codec}
use qt_sss_shttps.Www.Socket.{Socket, close}
use qt_sss_shttps.Www.Response.{OpenFile, WwwResponse}
use qt_sss_shttps.Www.Response.Sending.{
  IoOutcome, io_ok, read_error, write_error, is_send_file, timer_event, file_tick, at_end, advance,
  send_portion, run_events,
}

-- The answer is over: the connection is closed and no timer runs.
abbrev pub IsOver : WwwResponse × Socket → Type 0
IsOver x = (x.1.is_open ≡ false) × (x.0.timer ≡ false)

module _ (q : Codec) where
  run_events-stopped :
      (os : List IoOutcome) (r : WwwResponse) (s : Socket)
      → r.timer ≡ false
      → run_events q os r s ≡ (r, s)
  unfolding run_events
  run_events-stopped [] r s e = refl
  run_events-stopped (o ∷ os) r s e = rw e

  run_events-next :
      (o : IoOutcome) (os : List IoOutcome) (r : WwwResponse) (s : Socket)
      → r.timer ≡ true
      → run_events q (o ∷ os) r s ≡ run_events q os (timer_event q o r s).0 (timer_event q o r s).1
  unfolding run_events
  run_events-next o os r s e = rw e

  IsOver-stopped :
      (os : List IoOutcome) (r : WwwResponse) (s : Socket)
      → r.timer ≡ false
      → s.is_open ≡ false
      → IsOver (run_events q os r s)
  IsOver-stopped os r s e o = rw (run_events-stopped os r s e) (o, e)

  -- While a file is sent, whatever the reads of it and the writes to the connection come to:
  -- after one timer event more than there are bytes left, at least, the connection is closed and
  -- no timer runs.
  pub run_events-IsOver :
      (os : List IoOutcome) (r : WwwResponse) (f : OpenFile) (s : Socket)
      → is_send_file r.transport ≡ true
      → r.file ≡ some f
      → r.timer ≡ true
      → 0 < r.buffer_size
      → f.position ≤ length f.content
      → length f.content < length os + f.position
      → IsOver (run_events q os r s)
  unfolding timer_event close at_end send_portion
  run_events-IsOver [] r f s t g i b v e = absurd (omega arith)
  run_events-IsOver (o ∷ os) r f s t g i b v e = rw (run_events-next o os r s i) (
      rw (t, g, timer_event)
        (elim (Bool-cases (leb (length f.content) f.position)) [
          | inl done ↦ rw (done, file_tick) (IsOver-stopped os _ (close s) refl refl)
          | inr more ↦
              rw (more, file_tick)
                (elim o
                  as (λ k.
                    let x = send_portion k (record r { file = some f }) f s in
                    IsOver (run_events q os x.0 x.1)) [
                      | io_ok ↦
                          run_events-IsOver os (record r { file = some (advance r.buffer_size f) })
                            (advance r.buffer_size f) _ t refl i b (omega arith) (ground arith)
                      | read_error ↦ IsOver-stopped os _ (close s) refl refl
                      | write_error ↦ IsOver-stopped os _ (close s) refl refl
                    ])
        ]))
