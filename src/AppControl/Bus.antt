-- ===== src/AppControl/Bus.antt =====
-- `exposedBusCommands` and `executeBusCommand` of ModuleAppControl.cpp, and what `onBusMessage` of
-- ModuleBase.cpp makes of a message with them.
pub mod Kept
use qt_sss_shttps.Common.{
  ℕ, zero, suc, ◌+◌, ◌≤◌, ◌≡◌, ◌↔◌, refl, sym, ap, ◌∙◌, Bool, true, false, ◌&&◌, ◌||◌, Option, none,
  some, not, if◌then◌else◌, List, [], ◌∷◌, ◌++◌, map, arith, length, length-append, append_assoc,
  Bool-cases, Option-cases, inl, inr,
}
use qt_sss_shttps.Conf.{Storage}
use qt_sss_shttps.Text.{Text, codes, text_eq, is_empty, contains}
use qt_sss_shttps.Text.Laws.{text_eq_iff}
use qt_sss_shttps.Json.{Fields, str, array, value, insert, to_string, to_items}
use qt_sss_shttps.Module.{
  Effect, Command, list_commands, start_command, stop_command, BusResult, is_active_module,
  exposed_bus_commands, command_of, sender_of, wants_response, result_true, finish, run_command,
}
use qt_sss_shttps.HttpsServer.Setup.{Resolver}
use qt_sss_shttps.AppControl.{Pem, AppControl, Started, start_app_control, stop_app_control}

-- `exposedBusCommands`: the static list, which is `exposed_bus_commands` before the first call,
-- as a call leaves and returns it.
unfoldable pub expose : List Text → List Text
expose kept = kept ++ (codes "quit" ∷ [])

-- What a message comes to: the application is told to quit, a call goes through a null pointer, or
-- the module that is left, its signals, and whether the message was handled.
pub data BusOutcome : Type 0 where
  quits null_pointer : BusOutcome
  done : AppControl → List Effect → (handled : Bool) → BusOutcome

-- `kept`: the static list afterwards.
pub record BusTurn : Type 0 where
  pub kept : List Text
  pub outcome : BusOutcome

unfoldable pub finish_start : Fields → Option Started → BusOutcome
finish_start message none = null_pointer
finish_start message (some r) =
    done r.control (finish r.control.conf r.effects message result_true).effects true

unfoldable pub finish_stop : Fields → AppControl → Option (List Effect) → BusOutcome
finish_stop message m none = null_pointer
finish_stop message m (some es) = done m (finish m.conf es message result_true).effects true

abbrev pub command_name : Fields → Text
command_name message = to_string [] (value (codes "command") message)

-- The module's surroundings: names, certificates, whether its file can be written, random numbers,
-- and what the two calls of `listen` return.
module _ (z : Resolver) (p : Pem) (storage : Storage) (random : ℕ → ℕ)
    (wss_listens www_listens : Bool) where
  -- A command of the base class; `start` and `stop` are those of this class, and so is the list,
  -- which is asked for only where a response is wanted.
  unfoldable pub run_base_command : Command → Fields → List Text → AppControl → BusTurn
  run_base_command list_commands message kept m = record {
    kept = if wants_response message then expose kept else kept;
    outcome =
        done m
          (finish m.conf [] message
            (insert (codes "value") (array (to_items (map str (expose kept)))) result_true)).effects
          true;
  }
  run_base_command start_command message kept m = record {
    kept = kept;
    outcome = finish_start message (start_app_control z p storage random wss_listens www_listens m);
  }
  run_base_command stop_command message kept m = record {
    kept = kept;
    outcome = finish_stop message m (stop_app_control m);
  }
  run_base_command k message kept m =
      let r = run_command storage k message m.conf in
      record { kept = kept; outcome = done (record m { conf = r.conf }) r.effects r.handled }

  unfoldable pub execute_control_command : Text → Fields → List Text → AppControl → BusTurn
  execute_control_command name message kept m =
      if text_eq name (codes "quit")
      then record { kept = kept; outcome = quits }
      else elim (command_of name) [
        | none ↦ record { kept = kept; outcome = done m [] false }
        | some k ↦ run_base_command k message kept m
      ]

  -- `onBusMessage`.
  unfoldable pub on_control_message : Fields → List Text → AppControl → BusTurn
  on_control_message message kept m =
      if not (is_active_module m.conf)
      then record { kept = kept; outcome = done m [] false }
      else if is_empty (sender_of message)
      then record { kept = kept; outcome = done m [] false }
      else if not (contains (expose kept) (command_name message))
      then record { kept = expose kept; outcome = done m [] false }
      else execute_control_command (command_name message) message (expose kept) m
