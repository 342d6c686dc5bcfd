-- ===== src/AppControl/Bus/Kept.antt =====
-- The list of commands that the module keeps from message to message, and the message that quits.
use qt_sss_shttps.Common.{
  ℕ, zero, suc, ◌≡◌, ◌⊎◌, refl, ap, ◌∙◌, Bool, true, false, ◌&&◌, ◌||◌, Option, none, some, not,
  List, [], ◌∷◌, ◌++◌, arith, append_assoc, Bool-cases, Option-cases, inl, inr, if-both,
}
use qt_sss_shttps.Conf.{Storage}
use qt_sss_shttps.Text.{Text, codes, text_eq, is_empty, contains}
use qt_sss_shttps.Text.Laws.{text_eq_symm}
use qt_sss_shttps.Json.{Fields}
use qt_sss_shttps.Module.{
  Effect, Command, get_active, expose_with_zero_conf, get_zero_conf_entries, ping, pong,
  change_active, list_commands, start_command, stop_command, is_active_module, exposed_bus_commands,
  command_of, sender_of, wants_response,
}
use qt_sss_shttps.HttpsServer.Setup.{Resolver}
use qt_sss_shttps.AppControl.{Pem, AppControl, Started}
use qt_sss_shttps.AppControl.Bus.{
  expose, BusOutcome, quits, null_pointer, done, BusTurn, finish_start, finish_stop, command_name,
  run_base_command, execute_control_command, on_control_message,
}

abbrev pub quits_list : ℕ → List Text
quits_list zero = []
quits_list (suc n) = codes "quit" ∷ quits_list n

-- The static list after n calls.
abbrev pub kept_after : ℕ → List Text
kept_after n = exposed_bus_commands ++ quits_list n

quits_list-append : (n : ℕ) → quits_list n ++ (codes "quit" ∷ []) ≡ quits_list (suc n)
quits_list-append zero = refl
quits_list-append (suc n) = ap (λ t. codes "quit" ∷ t) (quits_list-append n)

expose-kept_after : (n : ℕ) → expose (kept_after n) ≡ kept_after (suc n)
unfolding expose
expose-kept_after n =
    append_assoc exposed_bus_commands (quits_list n) (codes "quit" ∷ [])
    ∙ ap (λ t. exposed_bus_commands ++ t) (quits_list-append n)

contains-append :
    (ss ts : List Text) (name : Text)
    → contains (ss ++ ts) name ≡ (contains ss name || contains ts name)
unfolding contains
contains-append [] ts name = refl
contains-append (s ∷ ss) ts name = ground (arith, contains-append ss ts name)

expose-contains :
    (kept : List Text) (name : Text)
    → text_eq name (codes "quit") ≡ true
    → contains (expose kept) name ≡ true
unfolding expose contains
expose-contains kept name e =
    contains-append kept (codes "quit" ∷ []) name
    ∙ ground (arith, text_eq_symm name (codes "quit"), e)

unfoldable pub is_quit : BusOutcome → Bool
is_quit quits = true
is_quit null_pointer = false
is_quit (done m es handled) = false

finish_start-is_quit :
    (message : Fields) (o : Option Started) → is_quit (finish_start message o) ≡ false
unfolding finish_start is_quit
finish_start-is_quit message none = refl
finish_start-is_quit message (some r) = refl

finish_stop-is_quit :
    (message : Fields) (m : AppControl) (o : Option (List Effect))
    → is_quit (finish_stop message m o) ≡ false
unfolding finish_stop is_quit
finish_stop-is_quit message m none = refl
finish_stop-is_quit message m (some es) = refl

module _ (z : Resolver) (p : Pem) (storage : Storage) (random : ℕ → ℕ)
    (wss_listens www_listens : Bool) where
  abbrev turn : Fields → List Text → AppControl → BusTurn
  turn = on_control_message z p storage random wss_listens www_listens

  abbrev base_turn : Command → Fields → List Text → AppControl → BusTurn
  base_turn = run_base_command z p storage random wss_listens www_listens

  base_turn-kept :
      (k : Command) (message : Fields) (kept : List Text) (m : AppControl)
      → ((base_turn k message kept m).kept ≡ kept)
        ⊎ ((base_turn k message kept m).kept ≡ expose kept)
  unfolding run_base_command
  base_turn-kept get_active message kept m = inl refl
  base_turn-kept expose_with_zero_conf message kept m = inl refl
  base_turn-kept get_zero_conf_entries message kept m = inl refl
  base_turn-kept list_commands message kept m =
      if-both (λ t. (t ≡ kept) ⊎ (t ≡ expose kept)) (wants_response message) _ _ (inr refl)
        (inl refl)
  base_turn-kept ping message kept m = inl refl
  base_turn-kept pong message kept m = inl refl
  base_turn-kept change_active message kept m = inl refl
  base_turn-kept start_command message kept m = inl refl
  base_turn-kept stop_command message kept m = inl refl

  execute-kept :
      (name : Text) (message : Fields) (kept : List Text) (m : AppControl)
      → ((execute_control_command z p storage random wss_listens www_listens name message kept
            m).kept
          ≡ kept)
        ⊎ ((execute_control_command z p storage random wss_listens www_listens name message kept
              m).kept
            ≡ expose kept)
  unfolding execute_control_command
  execute-kept name message kept m = elim (Bool-cases (text_eq name (codes "quit"))) [
    | inl e ↦ rw (e, execute_control_command) (inl refl)
    | inr e ↦ elim (Option-cases (command_of name)) [
      | inl f ↦ rw (e, f, execute_control_command) (inl refl)
      | inr (k, f) ↦ rw (e, f, execute_control_command) (base_turn-kept k message kept m)
    ]
  ]

  twice :
      (kept : List Text) (n : ℕ)
      → kept ≡ kept_after n
      → expose (expose kept) ≡ kept_after (suc (suc n))
  twice kept n e =
      ap (λ t. expose (expose t)) e ∙ ap expose (expose-kept_after n) ∙ expose-kept_after (suc n)

  once : (kept : List Text) (n : ℕ) → kept ≡ kept_after n → expose kept ≡ kept_after (suc n)
  once kept n e = ap expose e ∙ expose-kept_after n

  -- Each message with a sender that an active module gets appends the command quit to the static
  -- list of its commands once more, or twice more: the list grows with every message.
  on_control_message-kept :
      (message : Fields) (kept : List Text) (m : AppControl) (n : ℕ)
      → is_active_module m.conf ≡ true
      → is_empty (sender_of message) ≡ false
      → kept ≡ kept_after n
      → ((turn message kept m).kept ≡ kept_after (suc n))
        ⊎ ((turn message kept m).kept ≡ kept_after (suc (suc n)))
  unfolding on_control_message
  on_control_message-kept message kept m n a s e =
      elim (Bool-cases (contains (expose kept) (command_name message))) [
        | inr f ↦ rw (a, s, f, on_control_message) (inl (once kept n e))
        | inl f ↦
            rw (a, s, f, on_control_message)
              (elim (execute-kept (command_name message) message (expose kept) m) [
                | inl g ↦ inl (g ∙ once kept n e)
                | inr g ↦ inr (g ∙ twice kept n e)
              ])
      ]

  base_turn-is_quit :
      (k : Command) (message : Fields) (kept : List Text) (m : AppControl)
      → is_quit (base_turn k message kept m).outcome ≡ false
  unfolding run_base_command is_quit
  base_turn-is_quit get_active message kept m = refl
  base_turn-is_quit expose_with_zero_conf message kept m = refl
  base_turn-is_quit get_zero_conf_entries message kept m = refl
  base_turn-is_quit list_commands message kept m = refl
  base_turn-is_quit ping message kept m = refl
  base_turn-is_quit pong message kept m = refl
  base_turn-is_quit change_active message kept m = refl
  base_turn-is_quit start_command message kept m = finish_start-is_quit message _
  base_turn-is_quit stop_command message kept m = finish_stop-is_quit message m _

  execute-is_quit :
      (name : Text) (message : Fields) (kept : List Text) (m : AppControl)
      → is_quit
          (execute_control_command z p storage random wss_listens www_listens name message kept
            m).outcome
        ≡ text_eq name (codes "quit")
  unfolding execute_control_command is_quit
  execute-is_quit name message kept m = elim (Bool-cases (text_eq name (codes "quit"))) [
    | inl e ↦ rw (e, execute_control_command) refl
    | inr e ↦ elim (Option-cases (command_of name)) [
      | inl f ↦ rw (e, f, execute_control_command) refl
      | inr (k, f) ↦ rw (e, f, execute_control_command) (base_turn-is_quit k message kept m)
    ]
  ]

  -- A message of the bus makes the application quit exactly when the module is active, the
  -- message names a sender and its command is quit.
  pub on_control_message-is_quit :
      (message : Fields) (kept : List Text) (m : AppControl)
      → is_quit (turn message kept m).outcome ≡ (
          is_active_module m.conf
          && (not (is_empty (sender_of message)) && text_eq (command_name message) (codes "quit")))
  unfolding on_control_message is_quit
  on_control_message-is_quit message kept m = ground (
    arith,
    expose-contains kept (command_name message),
    execute-is_quit (command_name message) message (expose kept) m,
  )
