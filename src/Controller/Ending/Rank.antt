-- ===== src/Controller/Ending/Rank.antt =====
-- The rank of a message, and what a reply to it ranks.
use qt_sss_shttps.Common.{
  ℕ, ◌<◌, ◌≤◌, ◌≡◌, refl, sym, ap, ◌∙◌, subst, Bool, false, if◌then◌else◌, List, [], ◌∷◌, ◌++◌,
  arith, All, Bool-cases, inl, inr, not,
}
use qt_sss_shttps.Text.{Text, codes, text_eq}
use qt_sss_shttps.Json.{undefined, str, Fields, value, insert, value-insert, to_string}
use qt_sss_shttps.Conf.{Conf}
use qt_sss_shttps.Conf.Settings.{module_uid}
use qt_sss_shttps.Module.{
  Effect, register_service, unregister_services, start_services, stop_services, bus_message,
  respond_command, wants_response, reply, finish,
}
use qt_sss_shttps.Module.Replies.{IsSilent}
use qt_sss_shttps.Controller.{sends}
use qt_sss_shttps.Controller.Plain.{requests}
use qt_sss_shttps.Controller.Ending.{IsBelow}

-- The rank by name, and by whether a response is asked for: a pong is not answered, and a ping
-- always is.
abbrev pub rank_of : Text → Bool → ℕ
rank_of name wants =
    if text_eq (codes "pong") name
    then 0
    else if wants
    then 2
    else if text_eq (codes "ping") name
    then 1
    else 0

unfoldable pub bus_rank : Fields → ℕ
bus_rank message = rank_of (to_string [] (value (codes "command") message)) (wants_response message)

reply-value :
    (key : Text) (c : Conf) (message : Fields) (command : Text) (response : Fields)
    → text_eq (codes "context") key ≡ false
    → text_eq (codes "sender") key ≡ false
    → value key (
        insert (codes "context") (str (to_string [] (value (codes "context") message))) (
          insert
            (codes "command")
            (str command)
            (insert (codes "sender") (str (module_uid c)) response)))
      ≡ (if text_eq (codes "command") key then str command else value key response)
reply-value key c message command response e f = ground (
  arith,
  value-insert (codes "context") key (str (to_string [] (value (codes "context") message))) (
      insert (codes "command") (str command)
        (insert (codes "sender") (str (module_uid c)) response)),
  value-insert (codes "command") key (str command)
      (insert (codes "sender") (str (module_uid c)) response),
  value-insert (codes "sender") key (str (module_uid c)) response,
)

pub reply-All :
    (n : ℕ) (c : Conf) (message : Fields) (command : Text) (response : Fields)
    → value (codes "respondCommand") response ≡ undefined
    → rank_of command false < n
    → All (IsBelow bus_rank n) (requests (reply c message command response ∷ []))
unfolding reply requests bus_rank wants_response respond_command to_string text_eq
reply-All n c message command response e l = (
  subst (λ v. v < n)
      (sym (
        ap
          (λ v. rank_of (to_string [] v) (
            not (
              text_eq (to_string (codes "NULL") (value (codes "respondCommand") sent))
                (codes "NULL"))))
          (reply-value (codes "command") c message command response refl refl)
        ∙ ap (λ v. rank_of command (not (text_eq (to_string (codes "NULL") v) (codes "NULL"))))
            (reply-value (codes "respondCommand") c message command response refl refl ∙ e)))
      l,
  tt,
)
  where
    sent : Fields
    sent = insert (codes "context") (str (to_string [] (value (codes "context") message))) (
        insert (codes "command") (str command)
          (insert (codes "sender") (str (module_uid c)) response))

pub low : (command : Text) → rank_of command false ≤ 1
low command = ground arith

requests-append : (es fs : List Effect) → requests (es ++ fs) ≡ requests es ++ requests fs
unfolding requests
requests-append [] fs = refl
requests-append (bus_message rs m ∷ es) fs = ap (λ t. sends rs m ∷ t) (requests-append es fs)
requests-append (register_service d ∷ es) fs = requests-append es fs
requests-append (unregister_services uid ∷ es) fs = requests-append es fs
requests-append (start_services uid ∷ es) fs = requests-append es fs
requests-append (stop_services uid ∷ es) fs = requests-append es fs

requests_of_silent : (es : List Effect) → IsSilent es → requests es ≡ []
unfolding requests
requests_of_silent [] s = refl
requests_of_silent (bus_message rs m ∷ es) s = absurd (omega (arith, s))
requests_of_silent (register_service d ∷ es) s = requests_of_silent es s
requests_of_silent (unregister_services uid ∷ es) s = requests_of_silent es s
requests_of_silent (start_services uid ∷ es) s = requests_of_silent es s
requests_of_silent (stop_services uid ∷ es) s = requests_of_silent es s

pub finish-All :
    (c : Conf) (es : List Effect) (message response : Fields)
    → IsSilent es
    → value (codes "respondCommand") response ≡ undefined
    → All
        (IsBelow bus_rank (if wants_response message then 2 else 0))
        (requests (finish c es message response).effects)
unfolding finish
finish-All c es message response s e = elim (Bool-cases (wants_response message)) [
  | inr w ↦ rw (w, finish) (rw (requests_of_silent es s) tt)
  | inl w ↦
      rw (w, finish)
        (rw
          (
            requests-append es (reply c message (respond_command message) response ∷ []),
            requests_of_silent es s,
          )
          (reply-All 2 c message (respond_command message) response e
            (omega (arith, low (respond_command message)))))
]
