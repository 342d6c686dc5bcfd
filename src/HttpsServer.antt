-- ===== src/HttpsServer.antt =====
-- ModuleHTTPSserver.cpp: the handlers are polled in turn for each request.
pub mod Running
pub mod Lifetime
pub mod Polling
pub mod Answered
pub mod Methods
pub mod Outcome
pub mod Setup
pub mod Wrapping
use qt_sss_shttps.Common.{
  ℕ, zero, suc, ◌+◌, ◌%◌, Bool, true, false, Option, none, some, List, [], ◌∷◌, ◌++◌, if◌then◌else◌,
  ◌&&◌, ◌||◌, not, get_elem?,
}
use qt_sss_shttps.Text.{Text, codes, contains, text_eq}
use qt_sss_shttps.Codec.{Codec}
use qt_sss_shttps.Engine.{Engine}
use qt_sss_shttps.Json.{Json, Fields, value, to_bool, to_string, to_array, to_object}
use qt_sss_shttps.Www.Request.{WwwRequest}
use qt_sss_shttps.Handlers.{
  Handler, HandlerClass, drop, redirect, rewrite_path, file_server, new_handler, init,
  is_rewrite_handler_class,
}
use qt_sss_shttps.Handlers.Handle.{Answer, respond404, Signal, next_handler, answer, handle}

-- The three tests by which `onNextHandler` skips a handler.
unfoldable pub is_skipped : Handler → WwwRequest → Bool
is_skipped h r =
    contains h.methods (b'^' ∷ r.method)
    || not (contains h.methods r.method)
    || (is_rewrite_handler_class h.class && r.rewrites_done)

-- `ubHandlerIndex++`, on a `quint8`.
unfoldable pub next_index : WwwRequest → WwwRequest
next_index r = record r { handler_index = (r.handler_index + 1) % 256 }

-- `onNextHandler`: its loop, and the calls of it by the signal `nextHandler` of the handler that
-- was asked. `none` means that the fuel ran out.
unfoldable pub on_next_handler :
    Engine → List Handler → ℕ → WwwRequest → Option (WwwRequest × Answer)
on_next_handler e hs zero r = none
on_next_handler e hs (suc fuel) r = elim (get_elem? hs r.handler_index) [
  | none ↦ some (r, respond404)
  | some h ↦ elim (is_skipped h (next_index r)) [
    | true ↦ on_next_handler e hs fuel (next_index r)
    | false ↦ elim ((handle e h (next_index r)).1) [
      | next_handler ↦ on_next_handler e hs fuel (handle e h (next_index r)).0
      | answer a ↦ some ((handle e h (next_index r)).0, a)
    ]
  ]
]

-- `onRequest`.
unfoldable pub on_request :
    Engine → List Handler → ℕ → (is_encrypted : Bool) → WwwRequest → Option (WwwRequest × Answer)
on_request e hs fuel is_encrypted r =
    if not is_encrypted then some (r, respond404) else on_next_handler e hs fuel r

-- The classes that `onAppendHandler` knows; the base class is ignored.
unfoldable pub handler_class : Text → Option HandlerClass
handler_class name =
    if text_eq name (codes "MHTTPSShandlerBase")
    then none
    else if text_eq name (codes "MHTTPSShandlerDrop")
    then some drop
    else if text_eq name (codes "MHTTPSShandlerFileServer")
    then some file_server
    else if text_eq name (codes "MHTTPSShandlerRedirect")
    then some redirect
    else if text_eq name (codes "MHTTPSShandlerRewritePath")
    then some rewrite_path
    else none

-- `onAppendHandler(MHTTPSShandlerBase *)`: a handler that is not active after `init` is dropped.
unfoldable pub append_handler : Codec → Engine → Handler → List Handler → List Handler
append_handler q e h hs =
    let ready = init q e h in if ready.is_active then hs ++ (ready ∷ []) else hs

unfoldable pub append_class :
    Codec → Engine → Fields → Option HandlerClass → List Handler → List Handler
append_class q e config none hs = hs
append_class q e config (some class) hs = append_handler q e (new_handler class config) hs

-- `onAppendHandler(QJsonObject)`.
unfoldable pub append_config : Codec → Engine → Fields → List Handler → List Handler
unfolding append_class append_handler
append_config q e config hs =
    if to_bool false (value (codes "bActive") config)
    then append_class q e config (handler_class (to_string [] (value (codes "sClass") config))) hs
    else hs

unfoldable pub append_configs : Codec → Engine → List Json → List Handler → List Handler
append_configs q e [] hs = hs
append_configs q e (v ∷ vs) hs = append_configs q e vs (append_config q e (to_object v) hs)

-- `initHandlers`, on the module's configuration; `init` has cleared the list.
unfoldable pub init_handlers : Codec → Engine → Fields → List Handler
init_handlers q e conf = append_configs q e (to_array (value (codes "aHandlers") conf)) []
