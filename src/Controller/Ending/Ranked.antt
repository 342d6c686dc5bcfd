-- ===== src/Controller/Ending/Ranked.antt =====
-- Modules that take messages as the base class does: an answer to a message ranks below it.
use qt_sss_shttps.Common.{
  ℕ, ◌≤◌, ◌≡◌, refl, subst, Bool, some, if◌then◌else◌, List, [], ◌∷◌, arith, All, if-both,
  Bool-cases, Option-cases, inl, inr,
}
use qt_sss_shttps.Text.{Text, codes, text_eq}
use qt_sss_shttps.Json.{Json, undefined, Fields, value, insert, to_string}
use qt_sss_shttps.Conf.{Storage, Conf}
use qt_sss_shttps.Module.{
  BusResult, Command, get_active, expose_with_zero_conf, get_zero_conf_entries, list_commands, ping,
  pong, change_active, start_command, stop_command, command_of, respond_command, wants_response,
  reply, result_true, run_command, execute_bus_command, is_accepted, on_bus_message, start_module,
  stop_module,
}
use qt_sss_shttps.Module.Replies.{start_module-IsSilent, stop_module-IsSilent}
use qt_sss_shttps.Module.Handled.{others, not_both}
use qt_sss_shttps.Controller.{Controller}
use qt_sss_shttps.Controller.Dispatch.{dispatch}
use qt_sss_shttps.Controller.Plain.{requests, plain_class}
use qt_sss_shttps.Controller.Ending.{Ends, IsBelow, IsRanked, dispatch-Ends}
use qt_sss_shttps.Controller.Ending.Rank.{rank_of, bus_rank, reply-All, low, finish-All}

-- The bound on what a command sends.
abbrev bound : Command → Bool → ℕ
bound ping w = if w then 2 else 1
bound pong w = 0
bound _ w = if w then 2 else 0

result_true-plain : value (codes "respondCommand") result_true ≡ undefined
unfolding result_true value insert text_eq
result_true-plain = refl

result_plain :
    (v : Json) → value (codes "respondCommand") (insert (codes "value") v result_true) ≡ undefined
unfolding result_true value insert text_eq
result_plain v = refl

ping-All :
    (message : Fields) (c : Conf)
    → All (IsBelow bus_rank (if wants_response message then 2 else 1)) (
        requests (
          reply c message
            (if wants_response message then respond_command message else codes "pong")
            result_true
          ∷ []))
unfolding text_eq
ping-All message c = elim (Bool-cases (wants_response message)) [
  | inl w ↦ rw w (
      reply-All 2 c message (respond_command message) result_true result_true-plain
        (omega (arith, low (respond_command message))))
  | inr w ↦ rw w (reply-All 1 c message (codes "pong") result_true result_true-plain (omega arith))
]

run_command-All :
    (storage : Storage) (k : Command) (message : Fields) (c : Conf)
    → All
        (IsBelow bus_rank (bound k (wants_response message)))
        (requests (run_command storage k message c).effects)
unfolding run_command requests
run_command-All storage get_active message c = finish-All c [] message _ refl (result_plain _)
run_command-All storage expose_with_zero_conf message c =
    finish-All c [] message _ refl result_true-plain
run_command-All storage get_zero_conf_entries message c =
    finish-All c [] message _ refl result_true-plain
run_command-All storage list_commands message c = finish-All c [] message _ refl (result_plain _)
run_command-All storage ping message c = ping-All message c
run_command-All storage pong message c = tt
run_command-All storage change_active message c = finish-All _ [] message _ refl result_true-plain
run_command-All storage start_command message c =
    finish-All c (start_module c) message _ (start_module-IsSilent c) result_true-plain
run_command-All storage stop_command message c =
    finish-All c (stop_module c) message _ (stop_module-IsSilent c) result_true-plain

command_of-bound :
    (name : Text) (w : Bool) (k : Command) → command_of name ≡ some k → bound k w ≡ rank_of name w
unfolding command_of
command_of-bound name w k e =
    ground
      (arith, others name, not_both (codes "ping") (codes "pong") name (unfold text_eq in refl), e)

execute-All :
    (storage : Storage) (message : Fields) (c : Conf)
    → All (IsBelow bus_rank (bus_rank message)) (
        requests
          (execute_bus_command storage
            (to_string [] (value (codes "command") message))
            message
            c).effects)
unfolding execute_bus_command requests bus_rank
execute-All storage message c =
    elim (Option-cases (command_of (to_string [] (value (codes "command") message)))) [
      | inl e ↦ rw (e, execute_bus_command) tt
      | inr (k, e) ↦
          rw (e, execute_bus_command)
            (subst
              (λ n. All (IsBelow bus_rank n) (requests (run_command storage k message c).effects))
              (command_of-bound _ (wants_response message) k e)
              (run_command-All storage k message c))
    ]

plain_class-IsRanked : (storage : Storage) → IsRanked (plain_class storage) bus_rank
unfolding plain_class on_bus_message requests
plain_class-IsRanked storage = record {
  lower = λ message c.
      if-both (λ (x : BusResult). All (IsBelow bus_rank (bus_rank message)) (requests x.effects))
        (is_accepted message c) _ _ (execute-All storage message c) tt;
}

bus_rank-bounded : (message : Fields) → bus_rank message ≤ 2
unfolding bus_rank
bus_rank-bounded message = ground arith

-- Between modules that take messages as the base class does, the delivery of any message to any
-- modules ends: no answer is sent deeper than in the third place.
pub plain_class-dispatch-Ends :
    (storage : Storage) (receivers : List Text) (message : Fields) (c : Controller Conf)
    → Ends (dispatch (plain_class storage) 3 receivers message c)
plain_class-dispatch-Ends storage receivers message c =
    dispatch-Ends (plain_class storage) bus_rank (plain_class-IsRanked storage) 3 receivers message
      c (omega (arith, bus_rank-bounded message))
