-- ===== src/Www/Response/Closing.antt =====
-- Whatever is sent, `startSending` and the timer end with a closed connection.
use qt_sss_shttps.Common.{
  ℕ, zero, suc, ◌+◌, ◌<◌, ◌≡◌, ◌⊎◌, refl, true, false, not, ◌&&◌, Option, none, some, arith, ltb,
  leb, Bool-cases, Option-cases, inl, inr, length, is_negative, fits,
}
use qt_sss_shttps.Text.{Text, is_empty}
use qt_sss_shttps.Codec.{Codec}
use qt_sss_shttps.Www.Socket.{Socket, write, close}
use qt_sss_shttps.Www.Response.{
  OpenFile, WwwResponse, finalize, choose_transport, set_length, with_date, full_header_string,
}
use qt_sss_shttps.Www.Response.Sending.{
  is_send_file, is_sequential_file, timer_event, text_tick, file_tick, at_end, advance, run_timer,
  send_prepared, start_sending,
}
use qt_sss_shttps.Www.Response.Delivery.{run_timer-stopped, run_timer-next}
use qt_sss_shttps.Www.Response.Answers.{start_sending-prepared}

abbrev pub IsClosed : WwwResponse × Socket → Type 0
IsClosed x = x.1.is_open ≡ false

module _ (q : Codec) where
  closed-stopped :
      (n : ℕ) (r : WwwResponse) (s : Socket)
      → r.timer ≡ false
      → s.is_open ≡ false
      → (run_timer q n r s).1.is_open ≡ false
  closed-stopped n r s e o = rw (run_timer-stopped q n r s e) o

  run_timer-text_closed :
      (n : ℕ) (r : WwwResponse) (s : Socket)
      → is_send_file r.transport ≡ false
      → r.timer ≡ true
      → 0 < r.buffer_size
      → length r.body + 1 < n + r.count
      → 0 < n
      → (run_timer q n r s).1.is_open ≡ false
  unfolding timer_event close
  run_timer-text_closed zero r s f t b e p = elim p [ ]
  run_timer-text_closed (suc n) r s f t b e p = rw (run_timer-next q n r s t) (
      rw (f, timer_event)
        (elim (Bool-cases (ltb (length r.body) r.count)) [
          | inl done ↦ rw (done, text_tick) (closed-stopped n _ (close s) refl refl)
          | inr more ↦
              rw (more, text_tick)
                (run_timer-text_closed n (record r { count = r.count + r.buffer_size }) _ f t b
                  (ground arith) (ground arith))
        ]))

  run_timer-file_closed :
      (n : ℕ) (r : WwwResponse) (f : OpenFile) (s : Socket)
      → is_send_file r.transport ≡ true
      → r.file ≡ some f
      → r.timer ≡ true
      → 0 < r.buffer_size
      → length f.content < n + f.position
      → 0 < n
      → (run_timer q n r s).1.is_open ≡ false
  unfolding timer_event close at_end
  run_timer-file_closed zero r f s t g i b e p = elim p [ ]
  run_timer-file_closed (suc n) r f s t g i b e p = rw (run_timer-next q n r s i) (
      rw (t, g, timer_event)
        (elim (Bool-cases (leb (length f.content) f.position)) [
          | inl done ↦ rw (done, file_tick) (closed-stopped n _ (close s) refl refl)
          | inr more ↦
              rw (more, file_tick)
                (run_timer-file_closed n (record r { file = some (advance r.buffer_size f) })
                  (advance r.buffer_size f) _ t refl i b (ground arith) (ground arith))
        ]))

  -- What `finalize` leaves to be sent: no file, or the one that was opened.
  finalize-cases :
      (opened : Option OpenFile) (mime : Text) (r : WwwResponse)
      → let r' = finalize q opened mime r in
        (r'.timer ≡ r.timer)
        × (r'.buffer_size ≡ r.buffer_size)
        × ((is_send_file r'.transport ≡ false)
            ⊎ ((f : OpenFile) × (opened ≡ some f)
                × (r'.file ≡ some f)
                × (is_send_file r'.transport ≡ true)))
  unfolding finalize choose_transport set_length is_send_file
  finalize-cases opened mime r = elim (Bool-cases (is_empty r.path_file)) [
    | inl e ↦ elim (Bool-cases (is_empty r.body)) [
      | inl b ↦ rw (e, choose_transport) (rw b (refl, refl, inl refl))
      | inr b ↦ rw (e, choose_transport) (rw b (refl, refl, inl refl))
    ]
    | inr e ↦ elim (Option-cases opened) [
      | inl o ↦ rw (e, o, choose_transport) (refl, refl, inl refl)
      | inr (f, o) ↦ rw (e, o, choose_transport) (refl, refl, inr (f, refl, refl, refl))
    ]
  ]

  send_prepared-cases :
      (out : Text) (r : WwwResponse) (s : Socket)
      → (is_send_file r.transport && is_sequential_file r.file) ≡ false
      → ((send_prepared q out r s).1.is_open ≡ false)
        ⊎ (send_prepared q out r s
            ≡ (record r { count = 0; timer = true }, write (q.to_utf8 out) s))
  unfolding send_prepared close
  send_prepared-cases out r s n =
      elim (Bool-cases
        (not (is_negative r.content_length) && fits r.content_length r.buffer_size)) [
          | inl small ↦ inl (rw (small, send_prepared) refl)
          | inr large ↦ inr (rw (large, send_prepared) (rw n refl))
        ]

-- An opened file is at its start and not sequential.
abbrev pub IsPlainFile : Option OpenFile → Type 0
IsPlainFile none = Unit
IsPlainFile (some f) = (f.position ≡ 0) × (f.is_sequential ≡ false)

-- A number of timer events after which the connection is closed.
abbrev pub Closes : Codec → WwwResponse × Socket → Type 0
Closes q (r, s) = (n : ℕ) × ((run_timer q n r s).1.is_open ≡ false)

Closes-now : (q : Codec) (x : WwwResponse × Socket) → x.1.is_open ≡ false → Closes q x
unfolding run_timer
Closes-now q (r, s) o = (0, o)

send_prepared-text-Closes :
    (q : Codec) (out : Text) (r : WwwResponse) (s : Socket)
    → is_send_file r.transport ≡ false
    → 0 < r.buffer_size
    → Closes q (send_prepared q out r s)
send_prepared-text-Closes q out r s f b = elim (send_prepared-cases q out r s (rw f refl)) [
  | inl o ↦ Closes-now q (send_prepared q out r s) o
  | inr e ↦ rw e (
    length r.body + 2,
    run_timer-text_closed q (length r.body + 2) (record r { count = 0; timer = true }) _ f refl b
        (omega arith) (omega arith),
  )
]

send_prepared-file-Closes :
    (q : Codec) (out : Text) (r : WwwResponse) (f : OpenFile) (s : Socket)
    → is_send_file r.transport ≡ true
    → r.file ≡ some f
    → IsPlainFile (some f)
    → 0 < r.buffer_size
    → Closes q (send_prepared q out r s)
unfolding is_sequential_file
send_prepared-file-Closes q out r f s t g (z, n) b =
    elim (send_prepared-cases q out r s (rw (t, g, is_sequential_file) n)) [
      | inl o ↦ Closes-now q (send_prepared q out r s) o
      | inr e ↦ rw e (
        length f.content + 1,
        run_timer-file_closed q (length f.content + 1) (record r { count = 0; timer = true }) f _ t
            g refl b (omega arith) (omega arith),
      )
    ]

pub start_sending-Closes :
    (q : Codec) (opened : Option OpenFile) (mime date : Text) (r : WwwResponse) (s : Socket)
    → IsPlainFile opened
    → r.has_request ≡ true
    → 0 < r.buffer_size
    → s.is_valid ≡ true
    → Closes q (start_sending q opened mime date r s)
unfolding with_date
start_sending-Closes q opened mime date r s p t b v =
    let fin = finalize q opened mime r in
    let ready = with_date q date fin in
    let out = full_header_string q date fin in
    let (_, u, c) = finalize-cases q opened mime r in
    rw (start_sending-prepared q opened mime date r s t v) (elim c [
      | inl k ↦ send_prepared-text-Closes q out ready s k (rw u b)
      | inr (f, o, g, k) ↦ send_prepared-file-Closes q out ready f s k g (rw o at p) (rw u b)
    ])
