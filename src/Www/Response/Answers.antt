-- ===== src/Www/Response/Answers.antt =====
-- `startSending` followed by the timer, for a text and for a file.
use qt_sss_shttps.Common.{
  ℕ, ◌+◌, ◌<◌, ◌^◌, ◌≡◌, ◌≢◌, ◌%◌, refl, subst, ap, ◌∙◌, true, false, not, ◌&&◌, Option, some, [],
  ◌∷◌, ◌++◌, append_assoc, arith, leb, Bool-cases, inl, inr, length, drop, pos, to_int32,
  is_negative, fits,
}
use qt_sss_shttps.Text.{Text, IsAscii}
use qt_sss_shttps.Text.Laws.{is_empty_iff}
use qt_sss_shttps.Codec.{Codec, IsCodec}
use qt_sss_shttps.Www.Socket.{Socket, write, close}
use qt_sss_shttps.Www.Response.{
  OpenFile, WwwResponse, finalize, choose_transport, set_length, length_for, file_size, with_date,
  full_header_string,
}
use qt_sss_shttps.Www.Response.Sending.{
  is_send_file, is_sequential_file, run_timer, send_prepared, start_sending, small_payload,
}
use qt_sss_shttps.Www.Response.Delivery.{
  Delivered, Delivered-stopped, run_timer-text, run_timer-file, write-open,
}

IsAscii-append : (s t : Text) → IsAscii s → IsAscii t → IsAscii (s ++ t)
IsAscii-append [] t h k = k
IsAscii-append (c ∷ s) t (p, h) k = (p, IsAscii-append s t h k)

module _ (q : Codec) (c : IsCodec q) where
  send_prepared-small :
      (out : Text) (r : WwwResponse) (s : Socket)
      → r.content_length ≡ pos (length r.body)
      → is_send_file r.transport ≡ false
      → leb (length r.body) r.buffer_size ≡ true
      → send_prepared q out r s ≡ (r, close (write (q.to_utf8 (out ++ r.body)) s))
  unfolding send_prepared small_payload is_negative fits
  send_prepared-small out r s e f l = rw (e, f) (rw l)

  send_prepared-large :
      (out : Text) (r : WwwResponse) (s : Socket)
      → r.content_length ≡ pos (length r.body)
      → is_send_file r.transport ≡ false
      → leb (length r.body) r.buffer_size ≡ false
      → send_prepared q out r s ≡ (record r { count = 0; timer = true }, write (q.to_utf8 out) s)
  unfolding send_prepared is_negative fits
  send_prepared-large out r s e f l = rw (e, f) (rw l)

  send_prepared-text :
      (out : Text) (r : WwwResponse) (s : Socket)
      → IsAscii out
      → IsAscii r.body
      → r.content_length ≡ pos (length r.body)
      → is_send_file r.transport ≡ false
      → r.timer ≡ false
      → s.is_open ≡ true
      → 0 < r.buffer_size
      → Delivered s
          (out ++ r.body)
          (run_timer q (length r.body + 2) (send_prepared q out r s).0 (send_prepared q out r s).1)
  unfolding close
  send_prepared-text out r s a b e f t o p = elim (Bool-cases (leb (length r.body) r.buffer_size)) [
    | inl small ↦
        rw
          (
            send_prepared-small out r s e f small,
            c.to_ascii (out ++ r.body) (IsAscii-append out r.body a b),
            write-open (out ++ r.body) s o,
          )
          (Delivered-stopped q (length r.body + 2) r s _ (out ++ r.body) t refl refl)
    | inr large ↦
        rw (send_prepared-large out r s e f large, c.to_ascii out a, write-open out s o)
          (let (w, x, y) =
              run_timer-text q (length r.body + 2) (record r { count = 0; timer = true })
                (record s { sent = s.sent ++ out }) c b f refl o p (omega arith) (omega arith) in
            (w ∙ append_assoc s.sent out r.body, x, y))
  ]

-- What `finalize` leaves of a response that has no file.
finalize-text :
    (q : Codec) (opened : Option OpenFile) (mime : Text) (r : WwwResponse)
    → r.path_file ≡ []
    → let r' = finalize q opened mime r in
      (r'.body ≡ r.body)
      × (r'.content_length ≡ pos (length r.body))
      × (is_send_file r'.transport ≡ false)
      × (r'.timer ≡ r.timer)
      × (r'.buffer_size ≡ r.buffer_size)
unfolding finalize choose_transport set_length length_for is_send_file
finalize-text q opened mime r e = ground (arith, is_empty_iff r.path_file, is_empty_iff r.body)

pub start_sending-prepared :
    (q : Codec) (opened : Option OpenFile) (mime date : Text) (r : WwwResponse) (s : Socket)
    → r.has_request ≡ true
    → s.is_valid ≡ true
    → start_sending q opened mime date r s
      ≡ send_prepared q
          (full_header_string q date (finalize q opened mime r))
          (with_date q date (finalize q opened mime r))
          s
unfolding start_sending
start_sending-prepared q opened mime date r s t v = rw t (rw v)

-- With a codec that behaves as documented, startSending of a response to a request, without a
-- file, with no timer yet and a buffer that is not empty, on a valid open connection and with
-- ASCII headers and body, followed by as many timer events as the body has units and two more,
-- with writes that succeed: the connection got the headers and then the whole body, it is closed
-- and the timer is stopped.
pub start_sending-text :
    (q : Codec) (opened : Option OpenFile) (mime date : Text) (r : WwwResponse) (s : Socket)
    → IsCodec q
    → r.path_file ≡ []
    → IsAscii r.body
    → IsAscii (full_header_string q date (finalize q opened mime r))
    → r.has_request ≡ true
    → r.timer ≡ false
    → 0 < r.buffer_size
    → s.is_valid ≡ true
    → s.is_open ≡ true
    → Delivered s (full_header_string q date (finalize q opened mime r) ++ r.body) (
        run_timer q
          (length r.body + 2)
          (start_sending q opened mime date r s).0
          (start_sending q opened mime date r s).1)
unfolding with_date
start_sending-text q opened mime date r s c e a h t i b v o =
    let fin = finalize q opened mime r in
    let out = full_header_string q date fin in
    let (body, n, f, k, z) = finalize-text q opened mime r e in
    let x = send_prepared q out (with_date q date fin) s in
    rw (start_sending-prepared q opened mime date r s t v) (
      subst (λ w. Delivered s (out ++ w) (run_timer q (length w + 2) x.0 x.1)) body
        (send_prepared-text q c out (with_date q date fin) s h (rw body a) (rw body n) f (k ∙ i) o
          (rw z b)))

send_prepared-file :
    (q : Codec) (out : Text) (r : WwwResponse) (f : OpenFile) (s : Socket)
    → is_send_file r.transport ≡ true
    → r.file ≡ some f
    → f.is_sequential ≡ false
    → (not (is_negative r.content_length) && fits r.content_length r.buffer_size) ≡ false
    → send_prepared q out r s ≡ (record r { count = 0; timer = true }, write (q.to_utf8 out) s)
unfolding send_prepared is_sequential_file
send_prepared-file q out r f s t g n l = rw (l, t) (rw (g, is_sequential_file) (rw n))

-- What `finalize` leaves of a response whose file was opened.
finalize-file :
    (q : Codec) (f : OpenFile) (mime : Text) (r : WwwResponse)
    → r.path_file ≢ []
    → let r' = finalize q (some f) mime r in
      (r'.file ≡ some f)
      × (r'.content_length ≡ to_int32 (length f.content))
      × (is_send_file r'.transport ≡ true)
      × (r'.buffer_size ≡ r.buffer_size)
unfolding finalize choose_transport set_length length_for is_send_file file_size
finalize-file q f mime r e = ground (arith, is_empty_iff r.path_file)

int32_is_large :
    (n b : ℕ) → b < n % 2 ^ 32 → (not (is_negative (to_int32 n)) && fits (to_int32 n) b) ≡ false
unfolding to_int32 is_negative fits
int32_is_large n b h = ground arith

Delivered-header :
    (s : Socket) (out : Text) (f : OpenFile) (x : WwwResponse × Socket)
    → f.position ≡ 0
    → Delivered (record s { sent = s.sent ++ out }) (drop f.position f.content) x
    → Delivered s (out ++ f.content) x
Delivered-header s out f x z (w, o, k) =
    (w ∙ append_assoc s.sent out _ ∙ ap (λ n. s.sent ++ (out ++ drop n f.content)) z, o, k)

-- With a codec that behaves as documented, startSending of a response to a request, with a buffer
-- that is not empty and a file that was opened at its start, is not sequential and whose length
-- modulo 2^32 is more than the buffer, on a valid open connection and with ASCII headers,
-- followed by as many timer events as the file has bytes and one more, with reads and writes that
-- succeed: the connection got the headers and then the file byte for byte, and is closed.
pub start_sending-file :
    (q : Codec) (f : OpenFile) (mime date : Text) (r : WwwResponse) (s : Socket)
    → IsCodec q
    → r.path_file ≢ []
    → f.position ≡ 0
    → f.is_sequential ≡ false
    → r.buffer_size < length f.content % 2 ^ 32
    → IsAscii (full_header_string q date (finalize q (some f) mime r))
    → r.has_request ≡ true
    → 0 < r.buffer_size
    → s.is_valid ≡ true
    → s.is_open ≡ true
    → Delivered s (full_header_string q date (finalize q (some f) mime r) ++ f.content) (
        run_timer q
          (length f.content + 1)
          (start_sending q (some f) mime date r s).0
          (start_sending q (some f) mime date r s).1)
unfolding with_date
start_sending-file q f mime date r s c e z n l h t b v o =
    let fin = finalize q (some f) mime r in
    let ready = with_date q date fin in
    let out = full_header_string q date fin in
    let (g, k, i, u) = finalize-file q f mime r e in
    let big : (not (is_negative ready.content_length)
          && fits ready.content_length ready.buffer_size)
        ≡ false =
      rw (k, u) (int32_is_large (length f.content) r.buffer_size l) in
    rw (start_sending-prepared q (some f) mime date r s t v) (
      rw (send_prepared-file q out ready f s i g n big, c.to_ascii out h, write-open out s o)
        (let r' = record ready { count = 0; timer = true } in
          let s' = record s { sent = s.sent ++ out } in
          let n' = length f.content + 1 in
          Delivered-header s out f (run_timer q n' r' s') z (
            run_timer-file q n' r' f s' i g refl o (rw u b) (omega arith) (omega arith)
              (omega arith))))
