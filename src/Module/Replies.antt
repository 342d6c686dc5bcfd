-- ===== src/Module/Replies.antt =====
-- Which messages of the bus are handled, and what is replied to them.
use qt_sss_shttps.Common.{
  ℕ, ◌+◌, ◌≡◌, refl, ◌∙◌, Bool, true, false, List, [], ◌∷◌, ◌++◌, map, arith, Bool-cases, inl, inr,
  All, All-append,
}
use qt_sss_shttps.Text.{Text, codes, text_eq}
use qt_sss_shttps.Json.{Json, bool, str, Fields, value, insert, value-insert, to_string, to_object}
use qt_sss_shttps.Conf.{Conf}
use qt_sss_shttps.Conf.Settings.{module_uid, zero_conf}
use qt_sss_shttps.Module.{
  Effect, register_service, unregister_services, start_services, stop_services, bus_message,
  BusResult, sender_of, respond_command, wants_response, reply, finish, start_module, stop_module,
  register_services,
}

-- A reply to a message, from the module with that name.
abbrev pub IsReply : Fields → Text → Effect → Type 0
IsReply message uid (bus_message receivers response) =
    (receivers ≡ sender_of message ∷ [])
    × (value (codes "result") response ≡ bool true)
    × (value (codes "sender") response ≡ str uid)
    × (value (codes "context") response ≡ str (to_string [] (value (codes "context") message)))
IsReply message uid _ = Unit

-- The number of messages among the signals.
abbrev pub count_messages : List Effect → ℕ
count_messages [] = 0
count_messages (bus_message receivers response ∷ es) = 1 + count_messages es
count_messages (_ ∷ es) = count_messages es

pub reply-IsReply :
    (c : Conf) (message : Fields) (command : Text) (response : Fields)
    → value (codes "result") response ≡ bool true
    → IsReply message (module_uid c) (reply c message command response)
unfolding reply text_eq
reply-IsReply c message command response e =
    let uid = str (module_uid c) in
    let context = str (to_string [] (value (codes "context") message)) in
    let sent = insert (codes "sender") uid response in
    let named = insert (codes "command") (str command) sent in
    (
      refl,
      value-insert (codes "context") (codes "result") context named
          ∙ value-insert (codes "command") (codes "result") (str command) sent
          ∙ value-insert (codes "sender") (codes "result") uid response
          ∙ e,
      value-insert (codes "context") (codes "sender") context named
          ∙ value-insert (codes "command") (codes "sender") (str command) sent
          ∙ value-insert (codes "sender") (codes "sender") uid response,
      value-insert (codes "context") (codes "context") context named,
    )

pub reply-counted :
    (c : Conf) (message : Fields) (command : Text) (response : Fields)
    → count_messages (reply c message command response ∷ []) ≡ 1
unfolding reply
reply-counted c message command response = refl

count_messages-append :
    (es fs : List Effect) → count_messages (es ++ fs) ≡ count_messages es + count_messages fs
count_messages-append [] fs = omega arith
count_messages-append (bus_message receivers response ∷ es) fs =
    omega (arith, count_messages-append es fs)
count_messages-append (register_service d ∷ es) fs = count_messages-append es fs
count_messages-append (unregister_services uid ∷ es) fs = count_messages-append es fs
count_messages-append (start_services uid ∷ es) fs = count_messages-append es fs
count_messages-append (stop_services uid ∷ es) fs = count_messages-append es fs

-- Signals that send no message.
abbrev pub IsSilent : List Effect → Type 0
IsSilent es = count_messages es ≡ 0

IsSilent-services : (vs : List Json) → IsSilent (map (λ v. register_service (to_object v)) vs)
IsSilent-services [] = refl
IsSilent-services (v ∷ vs) = IsSilent-services vs

pub start_module-IsSilent : (c : Conf) → IsSilent (start_module c)
unfolding start_module register_services
start_module-IsSilent c = ground (
  arith,
  IsSilent-services (zero_conf c),
  count_messages-append (map (λ v. register_service (to_object v)) (zero_conf c))
      (start_services (module_uid c) ∷ []),
)

pub stop_module-IsSilent : (c : Conf) → IsSilent (stop_module c)
unfolding stop_module
stop_module-IsSilent c = refl

silent-All :
    (message : Fields) (uid : Text) (es : List Effect) → IsSilent es → All (IsReply message uid) es
silent-All message uid [] s = tt
silent-All message uid (bus_message receivers response ∷ es) s = absurd (omega (arith, s))
silent-All message uid (register_service d ∷ es) s = (tt, silent-All message uid es s)
silent-All message uid (unregister_services u ∷ es) s = (tt, silent-All message uid es s)
silent-All message uid (start_services u ∷ es) s = (tt, silent-All message uid es s)
silent-All message uid (stop_services u ∷ es) s = (tt, silent-All message uid es s)

-- What a command leaves: as many replies as expected, and nothing but replies.
pub record IsAnswering (n : ℕ) (message : Fields) (x : BusResult) : Type 0 where
  pub counted : count_messages x.effects ≡ n
  pub replies : All (IsReply message (module_uid x.conf)) x.effects

abbrev pub one_if : Bool → ℕ
one_if true = 1
one_if false = 0

pub finish-IsAnswering :
    (c : Conf) (es : List Effect) (message response : Fields)
    → IsSilent es
    → value (codes "result") response ≡ bool true
    → IsAnswering (one_if (wants_response message)) message (finish c es message response)
unfolding finish
finish-IsAnswering c es message response s e = elim (Bool-cases (wants_response message)) [
  | inl w ↦
      rw (w, finish)
        (record {
          counted = omega (
            arith,
            count_messages-append es (reply c message (respond_command message) response ∷ []),
            s,
            reply-counted c message (respond_command message) response,
          );
          replies =
              All-append _ es _ (silent-All message (module_uid c) es s)
                (reply-IsReply c message (respond_command message) response e, tt);
        })
  | inr w ↦
      rw (w, finish) (record { counted = s; replies = silent-All message (module_uid c) es s })
]
