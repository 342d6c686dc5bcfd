-- ===== src/Www/Response/Delivery.antt =====
-- Every byte of a response reaches the socket, and the socket is closed.
use native.Mathlib.Nat.{zero-add, add-zero, suc-add}
use qt_sss_shttps.Common.{
  ℕ, zero, suc, ◌+◌, ◌≤◌, ◌<◌, ◌≡◌, refl, sym, ap, ◌∙◌, true, false, some, [], ◌∷◌, ◌++◌,
  append_assoc, append-nil, arith, ltb, leb, Bool-cases, inl, inr, length, take, drop,
  take-append-drop, drop_of_le, min,
}
use qt_sss_shttps.Text.{Text, IsAscii}
use qt_sss_shttps.Codec.{Codec, IsCodec}
use qt_sss_shttps.Www.Socket.{Socket, write, close}
use qt_sss_shttps.Www.Response.{OpenFile, WwwResponse}
use qt_sss_shttps.Www.Response.Sending.{
  is_send_file, timer_event, text_tick, file_tick, at_end, advance, run_timer, io_ok,
}

IsAscii-take : (n : ℕ) (t : Text) → IsAscii t → IsAscii (take n t)
IsAscii-take zero t h = tt
IsAscii-take (suc n) [] h = tt
IsAscii-take (suc n) (c ∷ t) (p, h) = (p, IsAscii-take n t h)

IsAscii-drop : (n : ℕ) (t : Text) → IsAscii t → IsAscii (drop n t)
IsAscii-drop zero t h = h
IsAscii-drop (suc n) [] h = tt
IsAscii-drop (suc n) (c ∷ t) (p, h) = IsAscii-drop n t h

drop-add : (n k : ℕ) (t : Text) → drop (n + k) t ≡ drop k (drop n t)
drop-add zero k t = rw zero-add
drop-add (suc n) zero [] = rw add-zero
drop-add (suc n) (suc k) [] = rw suc-add
drop-add (suc n) k (c ∷ t) = rw suc-add (drop-add n k t)

portions : (b n : ℕ) (s t : Text) → (s ++ take b (drop n t)) ++ drop (n + b) t ≡ s ++ drop n t
portions b n s t =
    rw (drop-add n b t) (append_assoc s _ _ ∙ ap (λ x. s ++ x) (take-append-drop b (drop n t)))

-- The connection after the answer: closed, with the bytes appended.
abbrev pub Delivered : Socket → Text → WwwResponse × Socket → Type 0
Delivered s bytes (r', s') = (s'.sent ≡ s.sent ++ bytes) × (s'.is_open ≡ false) × (r'.timer ≡ false)

pub run_timer-stopped :
    (q : Codec) (n : ℕ) (r : WwwResponse) (s : Socket)
    → r.timer ≡ false
    → run_timer q n r s ≡ (r, s)
unfolding run_timer
run_timer-stopped q zero r s e = refl
run_timer-stopped q (suc n) r s e = rw e

pub Delivered-stopped :
    (q : Codec) (n : ℕ) (r : WwwResponse) (s t : Socket) (bytes : Text)
    → r.timer ≡ false
    → t.is_open ≡ false
    → t.sent ≡ s.sent ++ bytes
    → Delivered s bytes (run_timer q n r t)
Delivered-stopped q n r s t bytes e o w = rw (run_timer-stopped q n r t e) (w, o, e)

pub run_timer-next :
    (q : Codec) (n : ℕ) (r : WwwResponse) (s : Socket)
    → r.timer ≡ true
    → run_timer q (suc n) r s
      ≡ run_timer q n (timer_event q io_ok r s).0 (timer_event q io_ok r s).1
unfolding run_timer
run_timer-next q n r s e = rw e

pub write-open :
    (bytes : Text) (s : Socket)
    → s.is_open ≡ true
    → write bytes s ≡ record s { sent = s.sent ++ bytes }
unfolding write
write-open bytes s o = rw o

Delivered-portion :
    (b n : ℕ) (s : Socket) (t : Text) (x : WwwResponse × Socket)
    → Delivered (record s { sent = s.sent ++ take b (drop n t) }) (drop (n + b) t) x
    → Delivered s (drop n t) x
Delivered-portion b n s t x (e, o, k) = (e ∙ portions b n s.sent t, o, k)

-- With a codec that behaves as documented, the timer over an ASCII text on an open connection,
-- from its count on and with a buffer that is not empty, writes the rest of the text, closes the
-- connection and stops, within two events more than there are units left.
pub run_timer-text :
    (q : Codec) (n : ℕ) (r : WwwResponse) (s : Socket)
    → IsCodec q
    → IsAscii r.body
    → is_send_file r.transport ≡ false
    → r.timer ≡ true
    → s.is_open ≡ true
    → 0 < r.buffer_size
    → length r.body + 1 < n + r.count
    → 0 < n
    → Delivered s (drop r.count r.body) (run_timer q n r s)
unfolding timer_event close
run_timer-text q zero r s c a f t o b e p = elim p [ ]
run_timer-text q (suc n) r s c a f t o b e p = rw (run_timer-next q n r s t) (
    rw (f, timer_event)
      (elim (Bool-cases (ltb (length r.body) r.count)) [
        | inl done ↦
            rw (done, text_tick)
              (Delivered-stopped q n _ s (close s) (drop r.count r.body) refl refl
                (rw (drop_of_le r.count r.body (ground arith)) (sym (append-nil s.sent))))
        | inr more ↦
            rw (more, text_tick)
              (let r' = record r { count = r.count + r.buffer_size } in
                let s' = record s { sent = s.sent ++ take r.buffer_size (drop r.count r.body) } in
                rw
                  (
                    c.to_ascii _ (IsAscii-take r.buffer_size _ (IsAscii-drop r.count r.body a)),
                    write-open (take r.buffer_size (drop r.count r.body)) s o,
                  )
                  (Delivered-portion r.buffer_size r.count s r.body (run_timer q n r' s')
                    (run_timer-text q n r' s' c a f t o b (ground arith) (ground arith))))
      ]))

drop-min : (n : ℕ) (t : Text) → drop (min n (length t)) t ≡ drop n t
drop-min n t = elim (Bool-cases (leb n (length t))) [
  | inl e ↦ ap (λ k. drop k t) (ground arith)
  | inr e ↦
      ap (λ k. drop k t) (let k : min n (length t) ≡ length t = ground arith in k)
      ∙ drop_of_le (length t) t (omega arith)
      ∙ sym (drop_of_le n t (ground arith))
]

-- The timer over an open file on an open connection, from its position on and with a buffer that
-- is not empty, writes the rest of the file byte for byte, closes the connection and stops,
-- within one event more than there are bytes left, where all reads and writes succeed.
pub run_timer-file :
    (q : Codec) (n : ℕ) (r : WwwResponse) (f : OpenFile) (s : Socket)
    → is_send_file r.transport ≡ true
    → r.file ≡ some f
    → r.timer ≡ true
    → s.is_open ≡ true
    → 0 < r.buffer_size
    → f.position ≤ length f.content
    → length f.content < n + f.position
    → 0 < n
    → Delivered s (drop f.position f.content) (run_timer q n r s)
unfolding timer_event close at_end
run_timer-file q zero r f s t g i o b v e p = elim p [ ]
run_timer-file q (suc n) r f s t g i o b v e p = rw (run_timer-next q n r s i) (
    rw (t, g, timer_event)
      (elim (Bool-cases (leb (length f.content) f.position)) [
        | inl done ↦
            rw (done, file_tick)
              (Delivered-stopped q n _ s (close s) (drop f.position f.content) refl refl
                (rw (drop_of_le f.position f.content (ground arith)) (sym (append-nil s.sent))))
        | inr more ↦
            rw (more, file_tick)
              (let r' = record r { file = some (advance r.buffer_size f) } in
                let s' = record s {
                  sent = s.sent ++ take r.buffer_size (drop f.position f.content);
                } in
                rw (write-open (take r.buffer_size (drop f.position f.content)) s o) (
                  Delivered-portion r.buffer_size f.position s f.content (run_timer q n r' s') (
                    rw (← drop-min (f.position + r.buffer_size) f.content) (
                      run_timer-file q n r' (advance r.buffer_size f) s' t refl i o b (ground arith)
                        (ground arith) (ground arith)))))
      ]))
