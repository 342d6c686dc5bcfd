-- ===== src/Www/Response/Sending.antt =====
-- `startSending`, `timerEvent`, `onDie` and `onSequentialFileReadyRead` of WWWSresponse.cpp.
use qt_sss_shttps.Common.{
  ℕ, zero, suc, ◌+◌, Bool, true, false, not, ◌&&◌, Option, none, some, List, [], ◌∷◌, ◌++◌, ltb,
  ◌==◌, leb, if◌then◌else◌, length, take, drop, is_negative, fits, min,
}
use qt_sss_shttps.Text.{Text}
use qt_sss_shttps.Codec.{Codec}
use qt_sss_shttps.Www.Socket.{Socket, write, close}
use qt_sss_shttps.Www.Response.{
  TransportType, send_file, OpenFile, WwwResponse, finalize, with_date, full_header_string,
}

-- What a read of the file and the write after it come to.
pub data IoOutcome : Type 0 where
  io_ok read_error write_error : IoOutcome

unfoldable pub is_send_file : TransportType → Bool
is_send_file send_file = true
is_send_file _ = false

unfoldable pub at_end : OpenFile → Bool
at_end f = leb (length f.content) f.position

unfoldable pub rest_of_file : Option OpenFile → Text
rest_of_file none = []
rest_of_file (some f) = drop f.position f.content

unfoldable pub is_sequential_file : Option OpenFile → Bool
is_sequential_file none = false
is_sequential_file (some f) = f.is_sequential

abbrev pub advance : ℕ → OpenFile → OpenFile
advance n f = record f { position = min (f.position + n) (length f.content) }

-- The constructor of a `QString` from bytes reads them up to the first one that is 0.
unfoldable pub before_zero : Text → Text
before_zero [] = []
before_zero (b ∷ bs) = let rest = before_zero bs in if b == 0 then [] else b ∷ rest

-- What the small answer sends after the headers: `QString(oFile.readAll())` or the body.
unfoldable pub small_payload : Codec → WwwResponse → Text
small_payload q r =
    if is_send_file r.transport then q.from_utf8 (before_zero (rest_of_file r.file)) else r.body

-- The part of `startSending` after `finalize` and `fullHeaderString`.
unfoldable pub send_prepared : Codec → Text → WwwResponse → Socket → WwwResponse × Socket
send_prepared q out r s =
    if not (is_negative r.content_length) && fits r.content_length r.buffer_size
    then (
      if is_send_file r.transport then record r { file = none } else r,
      close (write (q.to_utf8 (out ++ small_payload q r)) s),
    )
    else (
      if is_send_file r.transport && is_sequential_file r.file
          then record r { count = 0 }
          else record r { count = 0; timer = true },
      write (q.to_utf8 out) s,
    )

-- `startSending`. `opened` and `mime` are as in `finalize`, `date` is the current date.
unfoldable pub start_sending :
    Codec → Option OpenFile → (mime date : Text) → WwwResponse → Socket → WwwResponse × Socket
start_sending q opened mime date r s =
    let ready = finalize q opened mime r in
    if not r.has_request
    then (record r { dying = true }, s)
    else if not s.is_valid
    then (record r { dying = true }, s)
    else send_prepared q (full_header_string q date ready) (with_date q date ready) s

-- One read of at most a buffer and the write of it.
unfoldable pub send_portion : IoOutcome → WwwResponse → OpenFile → Socket → WwwResponse × Socket
send_portion io_ok r f s = (
  record r { file = some (advance r.buffer_size f) },
  write (take r.buffer_size (drop f.position f.content)) s,
)
send_portion read_error r f s = (record r { timer = false }, close s)
send_portion write_error r f s =
    (record r { file = some (advance r.buffer_size f); timer = false }, close s)

-- `timerEvent` while a file is sent. A closed file is at its end.
unfoldable pub file_tick : IoOutcome → WwwResponse → Option OpenFile → Socket → WwwResponse × Socket
file_tick o r none s = (record r { timer = false }, close s)
file_tick o r (some f) s =
    if at_end f then (record r { timer = false; file = none }, close s) else send_portion o r f s

-- `timerEvent` while a text is sent.
unfoldable pub text_tick : Codec → WwwResponse → Socket → WwwResponse × Socket
text_tick q r s =
    if ltb (length r.body) r.count then (record r { timer = false; file = none }, close s) else (
      record r { count = r.count + r.buffer_size },
      write (q.to_utf8 (take r.buffer_size (drop r.count r.body))) s,
    )

unfoldable pub timer_event : Codec → IoOutcome → WwwResponse → Socket → WwwResponse × Socket
unfolding file_tick text_tick send_portion
timer_event q o r s = if is_send_file r.transport then file_tick o r r.file s else text_tick q r s

-- The event loop over the timer: it ends when the timer is killed, or with the fuel.
unfoldable pub run_timer : Codec → ℕ → WwwResponse → Socket → WwwResponse × Socket
run_timer q zero r s = (r, s)
run_timer q (suc n) r s = elim r.timer [
  | true ↦ let (r', s') = timer_event q io_ok r s in run_timer q n r' s'
  | false ↦ (r, s)
]

-- The timer events of a file with what each read and write comes to.
unfoldable pub run_events : Codec → List IoOutcome → WwwResponse → Socket → WwwResponse × Socket
run_events q [] r s = (r, s)
run_events q (o ∷ os) r s = elim r.timer [
  | true ↦ let (r', s') = timer_event q o r s in run_events q os r' s'
  | false ↦ (r, s)
]

-- `onDie`. A socket that is not valid is left alone.
unfoldable pub on_die : WwwResponse → Socket → WwwResponse × Socket
on_die r s =
    if not r.has_request
    then (record r { timer = false; file = none }, s)
    else if not s.is_valid
    then (record r { timer = false; file = none; has_request = false }, s)
    else (record r { timer = false; file = none; has_request = false; dying = true }, close s)

-- `onSequentialFileReadyRead`, while the file is open.
unfoldable pub on_sequential_ready_read :
    IoOutcome → WwwResponse → OpenFile → Socket → WwwResponse × Socket
on_sequential_ready_read io_ok r f s = (
  record r { file = some (advance r.buffer_size f) },
  write (take r.buffer_size (drop f.position f.content)) s,
)
on_sequential_ready_read read_error r f s = (r, close s)
on_sequential_ready_read write_error r f s =
    (record r { file = some (advance r.buffer_size f) }, close s)
