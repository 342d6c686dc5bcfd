-- ===== src/Module/Handled.antt =====
-- Which messages of the bus are handled, and how many replies they get.
use qt_sss_shttps.Common.{
  ◌≡◌, refl, subst, sym, ap, ◌∙◌, Bool, true, false, not, ◌&&◌, ◌||◌, Option, none, some, List, [],
  ◌∷◌, arith, if◌then◌else◌, Bool-cases, Option-cases, inl, inr, All,
}
use Prim.Native.String.{String}
use qt_sss_shttps.Text.Laws.{text_eq_iff, text_eq_symm}
use qt_sss_shttps.Module.Replies.{
  IsAnswering, one_if, finish-IsAnswering, start_module-IsSilent, stop_module-IsSilent,
  reply-IsReply, reply-counted,
}
use qt_sss_shttps.Text.{Text, codes, text_eq, contains}
use qt_sss_shttps.Json.{Json, bool, Fields, value, insert, to_string}
use qt_sss_shttps.Conf.{Storage, Conf}
use qt_sss_shttps.Module.{
  Command, get_active, expose_with_zero_conf, get_zero_conf_entries, list_commands, ping, pong,
  change_active, start_command, stop_command, exposed_bus_commands, command_of, respond_command,
  wants_response, result_true, finish, run_command, execute_bus_command, is_accepted,
  on_bus_message, start_module, stop_module,
}

unfoldable pub is_some : Option Command → Bool
is_some none = false
is_some (some k) = true

pub command_of-contains :
    (name : Text) → is_some (command_of name) ≡ contains exposed_bus_commands name
unfolding command_of contains exposed_bus_commands is_some
command_of-contains name = ground arith

run_command-handled :
    (storage : Storage) (k : Command) (message : Fields) (c : Conf)
    → (run_command storage k message c).handled ≡ true
unfolding run_command finish
run_command-handled storage get_active message c = refl
run_command-handled storage expose_with_zero_conf message c = refl
run_command-handled storage get_zero_conf_entries message c = refl
run_command-handled storage list_commands message c = refl
run_command-handled storage ping message c = refl
run_command-handled storage pong message c = refl
run_command-handled storage change_active message c = refl
run_command-handled storage start_command message c = refl
run_command-handled storage stop_command message c = refl

-- executeBusCommand handles a command exactly when it is one of the exposed commands.
pub execute_bus_command-handled :
    (storage : Storage) (name : Text) (message : Fields) (c : Conf)
    → (execute_bus_command storage name message c).handled ≡ contains exposed_bus_commands name
unfolding execute_bus_command is_some
execute_bus_command-handled storage name message c = elim (Option-cases (command_of name)) [
  | inl e ↦ rw (e, execute_bus_command) (ap is_some (sym e) ∙ command_of-contains name)
  | inr (k, e) ↦
      rw (e, execute_bus_command)
        (run_command-handled storage k message c ∙ ap is_some (sym e) ∙ command_of-contains name)
]

-- Whether a command is replied to.
abbrev pub is_replied : Text → Fields → Bool
is_replied name message =
    not (text_eq (codes "pong") name) && (wants_response message || text_eq (codes "ping") name)

abbrev replied_command : Command → Bool → Bool
replied_command ping w = true
replied_command pong w = false
replied_command _ w = w

pub not_both :
    (s t name : Text) → text_eq s t ≡ false → text_eq s name ≡ true → text_eq t name ≡ false
not_both s t name d e = rw (← (text_eq_iff s name).0 e) (text_eq_symm t s ∙ d)

-- A name that is another literal is neither `ping` nor `pong`.
neither :
    (s : String) (name : Text)
    → text_eq (codes s) (codes "ping") ≡ false
    → text_eq (codes s) (codes "pong") ≡ false
    → text_eq (codes s) name ≡ true
    → (text_eq (codes "ping") name ≡ false) × (text_eq (codes "pong") name ≡ false)
neither s name d e h =
    (not_both (codes s) (codes "ping") name d h, not_both (codes s) (codes "pong") name e h)

abbrev other_names : List String
other_names =
    "active" ∷ "exposeWithZeroConf" ∷ "getZeroConfEntries" ∷ "listCommands" ∷ "setActive" ∷ "start"
    ∷ "stop" ∷ []

pub others :
    (name : Text)
    → All
        (λ s.
          text_eq (codes s) name ≡ true
          → (text_eq (codes "ping") name ≡ false) × (text_eq (codes "pong") name ≡ false))
        other_names
unfolding text_eq
others name = (
  neither "active" name refl refl,
  (
    neither "exposeWithZeroConf" name refl refl,
    (
      neither "getZeroConfEntries" name refl refl,
      (
        neither "listCommands" name refl refl,
        (
          neither "setActive" name refl refl,
          (neither "start" name refl refl, (neither "stop" name refl refl, tt)),
        ),
      ),
    ),
  ),
)

command_of-replied :
    (name : Text) (message : Fields) (k : Command)
    → command_of name ≡ some k
    → replied_command k (wants_response message) ≡ is_replied name message
unfolding command_of
command_of-replied name message k e =
    ground
      (arith, others name, not_both (codes "ping") (codes "pong") name (unfold text_eq in refl), e)

result_true-value : value (codes "result") result_true ≡ bool true
unfolding result_true value insert text_eq
result_true-value = refl

result_value :
    (v : Json) → value (codes "result") (insert (codes "value") v result_true) ≡ bool true
unfolding result_true value insert text_eq
result_value v = refl

run_command-IsAnswering :
    (storage : Storage) (k : Command) (message : Fields) (c : Conf)
    → IsAnswering
        (one_if (replied_command k (wants_response message)))
        message
        (run_command storage k message c)
unfolding run_command
run_command-IsAnswering storage get_active message c =
    finish-IsAnswering c [] message _ refl (result_value _)
run_command-IsAnswering storage expose_with_zero_conf message c =
    finish-IsAnswering c [] message _ refl result_true-value
run_command-IsAnswering storage get_zero_conf_entries message c =
    finish-IsAnswering c [] message _ refl result_true-value
run_command-IsAnswering storage list_commands message c =
    finish-IsAnswering c [] message _ refl (result_value _)
run_command-IsAnswering storage ping message c = record {
  counted =
      reply-counted c message
        (if wants_response message then respond_command message else codes "pong") result_true;
  replies = (reply-IsReply c message _ result_true result_true-value, tt);
}
run_command-IsAnswering storage pong message c = record { counted = refl; replies = tt }
run_command-IsAnswering storage change_active message c =
    finish-IsAnswering _ [] message _ refl result_true-value
run_command-IsAnswering storage start_command message c =
    finish-IsAnswering c (start_module c) message _ (start_module-IsSilent c) result_true-value
run_command-IsAnswering storage stop_command message c =
    finish-IsAnswering c (stop_module c) message _ (stop_module-IsSilent c) result_true-value

execute_bus_command-IsAnswering :
    (storage : Storage) (name : Text) (message : Fields) (c : Conf)
    → contains exposed_bus_commands name ≡ true
    → IsAnswering
        (one_if (is_replied name message))
        message
        (execute_bus_command storage name message c)
unfolding is_some execute_bus_command text_eq
execute_bus_command-IsAnswering storage name message c h = elim (Option-cases (command_of name)) [
  | inl e ↦ absurd (let d = ap is_some (sym e) ∙ command_of-contains name ∙ h in cc d)
  | inr (k, e) ↦
      rw (e, execute_bus_command)
        (subst (λ b. IsAnswering (one_if b) message (run_command storage k message c))
          (command_of-replied name message k e) (run_command-IsAnswering storage k message c))
]

-- A message of the bus gets one reply where it is accepted, its command is not pong, and it names
-- a respond command or its command is ping, and none otherwise; each message that is sent goes to
-- the sender, has result true, the name of the module and the context of the message.
pub on_bus_message-IsAnswering :
    (storage : Storage) (message : Fields) (c : Conf)
    → IsAnswering
        (one_if (
          is_accepted message c
          && is_replied (to_string [] (value (codes "command") message)) message))
        message
        (on_bus_message storage message c)
unfolding is_accepted on_bus_message execute_bus_command
on_bus_message-IsAnswering storage message c = elim (Bool-cases (is_accepted message c)) [
  | inl a ↦
      rw (a, on_bus_message)
        (execute_bus_command-IsAnswering storage (to_string [] (value (codes "command") message))
          message c (ground (arith, a)))
  | inr a ↦ rw (a, on_bus_message) (record { counted = refl; replies = tt })
]
