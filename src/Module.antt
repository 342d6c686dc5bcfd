-- ===== src/Module.antt =====
-- ModuleBase.h and ModuleBase.cpp: what every module does with its configuration and with the
-- messages of the bus. The methods are those of the base class.
pub mod Replies
pub mod Handled
use qt_sss_shttps.Common.{
  ℕ, Bool, true, false, not, ◌&&◌, Option, none, some, List, [], ◌∷◌, ◌++◌, map, if◌then◌else◌,
}
use qt_sss_shttps.Text.{Text, codes, text_eq, is_empty, contains}
use qt_sss_shttps.Json.{
  Json, bool, str, array, Fields, end, value, insert, to_bool, to_string, to_object, to_items,
}
use qt_sss_shttps.Conf.{Storage, Conf}
use qt_sss_shttps.Conf.Settings.{is_active, set_active, module_uid, zero_conf}

-- The signals of a module that others act on.
pub data Effect : Type 0 where
  register_service : Fields → Effect
  unregister_services start_services stop_services : Text → Effect
  bus_message : (receivers : List Text) → Fields → Effect

-- `isActive`.
unfoldable pub is_active_module : Conf → Bool
is_active_module c = if c.is_ok then is_active c else false

unfoldable pub register_services : Conf → List Effect
register_services c = map (λ v. register_service (to_object v)) (zero_conf c)

-- `start`, `stop` and `die`.
unfoldable pub start_module : Conf → List Effect
start_module c =
    if is_active_module c then register_services c ++ (start_services (module_uid c) ∷ []) else []

unfoldable pub stop_module : Conf → List Effect
stop_module c = stop_services (module_uid c) ∷ []

unfoldable pub die_module : Conf → List Effect
unfolding stop_module
die_module c = stop_module c ++ (unregister_services (module_uid c) ∷ [])

-- The commands that `executeBusCommand` tells apart.
pub data Command : Type 0 where
  get_active expose_with_zero_conf get_zero_conf_entries list_commands ping pong change_active
        start_command stop_command :
      Command

unfoldable pub exposed_bus_commands : List Text
exposed_bus_commands =
    codes "active"
    ∷ codes "exposeWithZeroConf"
    ∷ codes "getZeroConfEntries"
    ∷ codes "listCommands"
    ∷ codes "ping"
    ∷ codes "pong"
    ∷ codes "setActive"
    ∷ codes "start"
    ∷ codes "stop"
    ∷ []

-- The comparisons of `executeBusCommand`, in its order.
unfoldable pub command_of : Text → Option Command
command_of name =
    if text_eq (codes "active") name
    then some get_active
    else if text_eq (codes "exposeWithZeroConf") name
    then some expose_with_zero_conf
    else if text_eq (codes "getZeroConfEntries") name
    then some get_zero_conf_entries
    else if text_eq (codes "listCommands") name
    then some list_commands
    else if text_eq (codes "ping") name
    then some ping
    else if text_eq (codes "pong") name
    then some pong
    else if text_eq (codes "setActive") name
    then some change_active
    else if text_eq (codes "start") name
    then some start_command
    else if text_eq (codes "stop") name
    then some stop_command
    else none

-- What a message leaves: the configuration, the signals, and whether it was handled.
pub record BusResult : Type 0 where
  pub conf : Conf
  pub effects : List Effect
  pub handled : Bool

unfoldable pub sender_of : Fields → Text
sender_of message = to_string [] (value (codes "sender") message)

unfoldable pub respond_command : Fields → Text
respond_command message = to_string (codes "NULL") (value (codes "respondCommand") message)

unfoldable pub wants_response : Fields → Bool
wants_response message = not (text_eq (respond_command message) (codes "NULL"))

unfoldable pub result_true : Fields
result_true = insert (codes "result") (bool true) end

-- The end of `executeBusCommand`, which sends the response.
unfoldable pub reply : Conf → Fields → (command : Text) → Fields → Effect
reply c message command response = bus_message (sender_of message ∷ []) (
    insert (codes "context") (str (to_string [] (value (codes "context") message))) (
      insert (codes "command") (str command)
        (insert (codes "sender") (str (module_uid c)) response)))

unfoldable pub finish : Conf → List Effect → Fields → Fields → BusResult
unfolding reply
finish c effects message response = record {
  conf = c;
  effects =
      if wants_response message
      then effects ++ (reply c message (respond_command message) response ∷ [])
      else effects;
  handled = true;
}

unfoldable pub run_command : (storage : Storage) → Command → Fields → Conf → BusResult
unfolding finish result_true exposed_bus_commands
run_command storage get_active message c =
    finish c [] message (insert (codes "value") (bool (is_active_module c)) result_true)
run_command storage expose_with_zero_conf message c = finish c [] message result_true
run_command storage get_zero_conf_entries message c = finish c [] message result_true
run_command storage list_commands message c =
    finish c [] message
      (insert (codes "value") (array (to_items (map str exposed_bus_commands))) result_true)
run_command storage ping message c = record {
  conf = c;
  effects =
      reply c message (if wants_response message then respond_command message else codes "pong")
        result_true
      ∷ [];
  handled = true;
}
run_command storage pong message c = record { conf = c; effects = []; handled = true }
run_command storage change_active message c =
    finish (set_active storage (to_bool false (value (codes "value") message)) c) [] message
      result_true
run_command storage start_command message c = finish c (start_module c) message result_true
run_command storage stop_command message c = finish c (stop_module c) message result_true

unfoldable pub execute_bus_command : (storage : Storage) → Text → Fields → Conf → BusResult
execute_bus_command storage name message c = elim (command_of name) [
  | none ↦ record { conf = c; effects = []; handled = false }
  | some k ↦ run_command storage k message c
]

-- The guards of `onBusMessage`.
unfoldable pub is_accepted : Fields → Conf → Bool
is_accepted message c =
    is_active_module c
    && not (is_empty (sender_of message))
    && contains exposed_bus_commands (to_string [] (value (codes "command") message))

unfoldable pub on_bus_message : (storage : Storage) → Fields → Conf → BusResult
on_bus_message storage message c =
    if is_accepted message c
    then execute_bus_command storage (to_string [] (value (codes "command") message)) message c
    else record { conf = c; effects = []; handled = false }
