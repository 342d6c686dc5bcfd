-- ===== src/AppControl/Login.antt =====
-- `onGotJSON` and `handleLogin`: the log-in over a web socket.
use qt_sss_shttps.Common.{
  ℕ, ◌∷◌, ◌≡◌, refl, sym, ◌∙◌, ap, ◌↔◌, ◌≢◌, ◌⊎◌, Bool, true, false, ◌&&◌, not, Option, none, some,
  if◌then◌else◌, [], arith, Bool-cases, Option-cases, inl, inr,
}
use qt_sss_shttps.Text.{Text, codes, text_eq, is_empty}
use qt_sss_shttps.Text.Laws.{text_eq_iff, is_empty_iff}
use qt_sss_shttps.Codec.{Codec}
use qt_sss_shttps.Json.{
  Json, undefined, null, bool, number, fraction, str, array, object, Fields, end, field, value,
  insert, to_bool, to_string, to_object,
}
use qt_sss_shttps.Conf.{Conf}
use qt_sss_shttps.Conf.Settings.{user, password}
use qt_sss_shttps.Wss.Messages.{got_command, got_document, on_text_message}

unfoldable pub argument : Text → Fields → Text
argument key arguments = to_string [] (value key arguments)

-- `bAuthenticated`.
unfoldable pub is_authenticated : Conf → Fields → Bool
is_authenticated c arguments =
    text_eq (user c) (argument (codes "user") arguments)
    && text_eq (password c) (argument (codes "password") arguments)
    && not (is_empty (argument (codes "nonce") arguments))

-- What `handleLogin` sends.
unfoldable pub handle_login : Conf → Fields → Fields
handle_login c arguments =
    insert (codes "result") (bool (is_authenticated c arguments))
      (insert (codes "command") (str (codes "authenticated")) end)

-- `onGotJSON`: the object that is sent back, if any. `secured` is whether the socket has a
-- configuration for TLS.
unfoldable pub on_got_json : Conf → (secured : Bool) → (command : Text) → Fields → Option Fields
on_got_json c secured command arguments =
    if not secured
    then none
    else if text_eq command (codes "login")
    then some (handle_login c arguments)
    else none

unfoldable pub answer_command : Conf → (secured : Bool) → Option (Text × Fields) → Option Fields
answer_command c secured none = none
answer_command c secured (some (command, arguments)) = on_got_json c secured command arguments

-- What a text message of a web socket is answered with: `gotJSON` of the session is connected to
-- that of the server, and that to `onGotJSON` of the module.
unfoldable pub answer_message :
    Codec → (from_json : Text → Option Json) → Conf → (secured : Bool) → Text → Option Fields
answer_message q from_json c secured message =
    answer_command c secured (on_text_message q from_json message)

-- The message is an object with the command login and the user and password of the configuration,
-- and any nonce at all.
pub record IsLogin (q : Codec) (from_json : Text → Option Json) (c : Conf) (message : Text)
    : Type 0 where
  pub fields : Fields
  pub parsed : from_json (q.to_utf8 message) ≡ some (object fields)
  pub command : value (codes "command") fields ≡ str (codes "login")
  pub same_user : argument (codes "user") (to_object (value (codes "arguments") fields)) ≡ user c
  pub same_password :
      argument (codes "password") (to_object (value (codes "arguments") fields)) ≡ password c
  pub some_nonce : argument (codes "nonce") (to_object (value (codes "arguments") fields)) ≢ []

abbrev pub granted : Fields
granted =
    field (codes "command") (str (codes "authenticated")) (field (codes "result") (bool true) end)

to_string-str : (v : Json) (c : ℕ) (t : Text) → to_string [] v ≡ c ∷ t → v ≡ str (c ∷ t)
unfolding to_string
to_string-str (str s) c t e = ap str e
to_string-str undefined c t e = absurd (cc e)
to_string-str null c t e = absurd (cc e)
to_string-str (bool b) c t e = absurd (cc e)
to_string-str (number n) c t e = absurd (cc e)
to_string-str (fraction s) c t e = absurd (cc e)
to_string-str (array vs) c t e = absurd (cc e)
to_string-str (object fs) c t e = absurd (cc e)

handle_login-granted :
    (c : Conf) (arguments : Fields)
    → (handle_login c arguments ≡ granted) ↔ (is_authenticated c arguments ≡ true)
unfolding handle_login insert text_eq to_bool value
handle_login-granted c arguments = (
  λ e. ap (λ o. to_bool false (value (codes "result") o)) e,
  λ e.
      ap
        (λ b.
          field (codes "command") (str (codes "authenticated"))
            (field (codes "result") (bool b) end))
        e,
)

on_got_json-granted :
    (c : Conf) (secured : Bool) (command : Text) (arguments : Fields)
    → (on_got_json c secured command arguments ≡ some granted)
      ↔ ((secured ≡ true) × (command ≡ codes "login") × (is_authenticated c arguments ≡ true))
unfolding on_got_json
on_got_json-granted c secured command arguments =
    ground (arith, handle_login-granted c arguments, text_eq_iff command (codes "login"))

is_authenticated_iff :
    (c : Conf) (arguments : Fields)
    → (is_authenticated c arguments ≡ true) ↔ (
        (argument (codes "user") arguments ≡ user c)
        × (argument (codes "password") arguments ≡ password c)
        × (argument (codes "nonce") arguments ≢ []))
unfolding is_authenticated
is_authenticated_iff c arguments =
    let given = argument (codes "user") arguments in
    let secret = argument (codes "password") arguments in
    ground (
      arith,
      text_eq_iff (user c) given,
      text_eq_iff (password c) secret,
      is_empty_iff (argument (codes "nonce") arguments),
    )

got_command-cases :
    (fs : Fields)
    → (got_command fs ≡ none)
      ⊎ (got_command fs
          ≡ some
              (to_string [] (value (codes "command") fs), to_object (value (codes "arguments") fs)))
unfolding got_command
got_command-cases end = inl refl
got_command-cases (field k v fs) =
    elim (Bool-cases (is_empty (to_string [] (value (codes "command") (field k v fs))))) [
      | inl e ↦ inl (rw (e, got_command) refl)
      | inr e ↦ inr (rw (e, got_command) refl)
    ]

got_command-login :
    (fs : Fields)
    → value (codes "command") fs ≡ str (codes "login")
    → got_command fs ≡ some (codes "login", to_object (value (codes "arguments") fs))
unfolding got_command value to_string is_empty
got_command-login end e = absurd (cc e)
got_command-login (field k v fs) e = rw (e, got_command) refl

module _ (q : Codec) (from_json : Text → Option Json) (c : Conf) (secured : Bool)
    (message : Text) where
  on_text_message-object :
      (v : Json)
      → from_json (q.to_utf8 message) ≡ some v
      → on_text_message q from_json message ≡ got_document v
  unfolding on_text_message
  on_text_message-object v e = rw (e, on_text_message) refl

  -- The answer to a message that names a command.
  answer_named :
      (fs : Fields) (command : Text) (arguments : Fields)
      → from_json (q.to_utf8 message) ≡ some (object fs)
      → got_command fs ≡ some (command, arguments)
      → answer_message q from_json c secured message ≡ on_got_json c secured command arguments
  unfolding answer_message answer_command got_document
  answer_named fs command arguments e n =
      ap (answer_command c secured) (on_text_message-object (object fs) e ∙ n)

  answer_none :
      on_text_message q from_json message ≡ none
      → answer_message q from_json c secured message ≡ some granted
      → ⊥
  unfolding answer_message answer_command
  answer_none e h = let d = sym (ap (answer_command c secured) e) ∙ h in cc d

  fields-IsLogin :
      (fs : Fields)
      → from_json (q.to_utf8 message) ≡ some (object fs)
      → (to_string [] (value (codes "command") fs) ≡ codes "login")
      → is_authenticated c (to_object (value (codes "arguments") fs)) ≡ true
      → IsLogin q from_json c message
  fields-IsLogin fs e n a =
      let l = (is_authenticated_iff c _).0 a in
      record {
        fields = fs;
        parsed = e;
        command = to_string-str _ _ _ n;
        same_user = l.0;
        same_password = l.1;
        some_nonce = l.2;
      }

  object-IsLogin :
      (fs : Fields)
      → from_json (q.to_utf8 message) ≡ some (object fs)
      → answer_message q from_json c secured message ≡ some granted
      → (secured ≡ true) × IsLogin q from_json c message
  unfolding got_document
  object-IsLogin fs e h = elim (got_command-cases fs) [
    | inl n ↦ absurd (answer_none (on_text_message-object (object fs) e ∙ n) h)
    | inr n ↦
        let g = (on_got_json-granted c secured _ _).0 (sym (answer_named fs _ _ e n) ∙ h) in
        (g.0, fields-IsLogin fs e g.1 g.2)
  ]

  document-IsLogin :
      (v : Json)
      → from_json (q.to_utf8 message) ≡ some v
      → answer_message q from_json c secured message ≡ some granted
      → (secured ≡ true) × IsLogin q from_json c message
  unfolding got_document
  document-IsLogin (object fs) e h = object-IsLogin fs e h
  document-IsLogin undefined e h = absurd (answer_none (on_text_message-object undefined e) h)
  document-IsLogin null e h = absurd (answer_none (on_text_message-object null e) h)
  document-IsLogin (bool b) e h = absurd (answer_none (on_text_message-object (bool b) e) h)
  document-IsLogin (number n) e h = absurd (answer_none (on_text_message-object (number n) e) h)
  document-IsLogin (fraction t) e h = absurd (answer_none (on_text_message-object (fraction t) e) h)
  document-IsLogin (str t) e h = absurd (answer_none (on_text_message-object (str t) e) h)
  document-IsLogin (array vs) e h = absurd (answer_none (on_text_message-object (array vs) e) h)

  unparsed : from_json (q.to_utf8 message) ≡ none → on_text_message q from_json message ≡ none
  unfolding on_text_message
  unparsed e = rw (e, on_text_message) refl

  login-granted :
      (secured ≡ true) × IsLogin q from_json c message
      → answer_message q from_json c secured message ≡ some granted
  login-granted (s, l) =
      answer_named l.fields _ _ l.parsed (got_command-login l.fields l.command)
      ∙ (on_got_json-granted c secured (codes "login") _).1
          (s, refl, (is_authenticated_iff c _).1 (l.same_user, l.same_password, l.some_nonce))

  -- A text message of a web socket is answered with result true exactly when the socket is
  -- configured for TLS and the message is an object with the command login, the user and the
  -- password of the configuration, and a nonce that is not empty.
  pub answer_message-granted :
      (answer_message q from_json c secured message ≡ some granted)
      ↔ ((secured ≡ true) × IsLogin q from_json c message)
  answer_message-granted = (
    λ h. elim (Option-cases (from_json (q.to_utf8 message))) [
      | inl e ↦ absurd (answer_none (unparsed e) h)
      | inr (v, e) ↦ document-IsLogin v e h
    ],
    login-granted,
  )
