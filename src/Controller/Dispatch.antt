-- ===== src/Controller/Dispatch.antt =====
-- `onBusMessage` of AppController.cpp: the messages between the modules. A signal is a call of its
-- slot, so a message that a module sends while it handles one is delivered at once.
use qt_sss_shttps.Common.{
  ℕ, zero, suc, Option, none, some, if◌then◌else◌, List, [], ◌∷◌, length, get_elem?,
}
use qt_sss_shttps.Text.{Text}
use qt_sss_shttps.Hash.{lookup, insert, has_key}
use qt_sss_shttps.Json.{Fields}
use qt_sss_shttps.Controller.{
  Request, sends, asks_quit, ModuleClass, unknown_receiver, Controller, Outcome, leaves,
  null_pointer, unfinished, and_then, report, quit,
}

module _ {M : Type 0} (k : ModuleClass M) where
  -- `next` delivers what is sent meanwhile.
  abbrev pub Delivery : Type 0
  Delivery = List Text → Fields → Controller M → Outcome M

  unfoldable pub carry_out : Delivery → List Request → Controller M → Outcome M
  carry_out next [] c = leaves c
  carry_out next (sends receivers message ∷ rs) c =
      and_then (next receivers message c) (carry_out next rs)
  carry_out next (asks_quit ∷ rs) c = and_then (quit k c) (carry_out next rs)

  -- The module as the message leaves it, and what it sends meanwhile.
  unfoldable pub after_message :
      Delivery → Text → Option (M × List Request) → Controller M → Outcome M
  after_message next uid none c = null_pointer
  after_message next uid (some (m, rs)) c =
      carry_out next rs (record c { modules = insert uid m c.modules })

  -- `hpModules.value(sUID)->onBusMessage(ojoMessage)`.
  unfoldable pub hand_over : Delivery → Fields → Text → Controller M → Outcome M
  hand_over next message uid c = elim (lookup uid c.modules) [
    | none ↦ null_pointer
    | some m ↦ after_message next uid (k.on_message message m) c
  ]

  -- The loop over all modules, from index i; `rounds` are enough for the modules that were there
  -- when it began, and no module is added meanwhile.
  unfoldable pub to_all : Delivery → Fields → (rounds i : ℕ) → Controller M → Outcome M
  to_all next message zero i c = leaves c
  to_all next message (suc n) i c = elim (get_elem? c.uids i) [
    | none ↦ leaves c
    | some uid ↦ and_then (hand_over next message uid c) (to_all next message n (suc i))
  ]

  unfoldable pub to_named : Delivery → Fields → List Text → Controller M → Outcome M
  to_named next message [] c = leaves c
  to_named next message (uid ∷ uids) c =
      and_then
        (if has_key uid c.modules
          then hand_over next message uid c
          else leaves (report (unknown_receiver uid) c))
        (to_named next message uids)

  -- `onBusMessage`; the fuel bounds how deep messages are sent while others are handled.
  unfoldable pub dispatch : (fuel : ℕ) → Delivery
  dispatch zero receivers message c = unfinished
  dispatch (suc fuel) [] message c = to_all (dispatch fuel) message (length c.uids) 0 c
  dispatch (suc fuel) (uid ∷ uids) message c = to_named (dispatch fuel) message (uid ∷ uids) c
