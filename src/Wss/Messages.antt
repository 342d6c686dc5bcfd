-- ===== src/Wss/Messages.antt =====
-- WSSsession.cpp: the text messages of a web socket.
use qt_sss_shttps.Common.{Option, none, some, if◌then◌else◌, []}
use qt_sss_shttps.Text.{Text, codes, is_empty}
use qt_sss_shttps.Codec.{Codec}
use qt_sss_shttps.Json.{Json, object, Fields, end, field, value, to_string, to_object}

-- `gotJSON`, for the object of a message: nothing where it is empty or names no command.
unfoldable pub got_command : Fields → Option (Text × Fields)
got_command end = none
got_command (field k v fs) =
    let command = to_string [] (value (codes "command") (field k v fs)) in
    if is_empty command
    then none
    else some (command, to_object (value (codes "arguments") (field k v fs)))

unfoldable pub got_document : Json → Option (Text × Fields)
got_document (object fs) = got_command fs
got_document _ = none

-- `onTextMessageReceived`. `from_json` is `QJsonDocument::fromJson`; a null document is `none`.
unfoldable pub on_text_message :
    Codec → (from_json : Text → Option Json) → Text → Option (Text × Fields)
on_text_message q from_json message = elim (from_json (q.to_utf8 message)) [
  | none ↦ none
  | some v ↦ got_document v
]
