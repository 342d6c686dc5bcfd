-- ===== src/Tests/Polled.antt =====
-- The polling of handlers on concrete inputs.
use qt_sss_shttps.Common.{
  ℕ, suc, zero, ◌≡◌, refl, true, false, not, ◌&&◌, none, some, List, [], ◌∷◌, arith, All, length,
}
use qt_sss_shttps.Text.{Text, codes, contains, text_eq, starts_with}
use qt_sss_shttps.Json.{end}
use qt_sss_shttps.Www.Request.{WwwRequest, blank_request}
use qt_sss_shttps.Handlers.{
  Handler, HandlerClass, drop, rewrite_path, file_server, is_rewrite_handler_class,
}
use qt_sss_shttps.Handlers.Methods.{all_methods, init_methods}
use qt_sss_shttps.Handlers.Methods.Taken.{asks_for, init_methods-contains}
use qt_sss_shttps.Handlers.Handle.{respond_file, handle, file_server_handle, serve_path}
use qt_sss_shttps.HttpsServer.{is_skipped, next_index, on_next_handler}
use qt_sss_shttps.HttpsServer.Polling.{poll, on_next_handler_total}
use qt_sss_shttps.HttpsServer.Answered.{IsAnswered, IsServable}
use qt_sss_shttps.HttpsServer.Outcome.{on_next_handler-IsAnswered, on_next_handler-IsServable}
use qt_sss_shttps.HttpsServer.Wrapping.{on_next_handler_diverges}
use qt_sss_shttps.Tests.Samples.{prefix_engine}

abbrev pub handler_for : HandlerClass → List Text → Handler
handler_for class methods = record {
  class = class;
  config = end;
  path_base = [];
  methods = methods;
  is_active = true;
  search = codes "/";
  replace_by = codes "/b";
  list_dirs = false;
  directory_index = [];
  match_is_final = true;
}

abbrev pub handlers : List Handler
handlers =
    handler_for drop (codes "PUT" ∷ [])
    ∷ handler_for rewrite_path (codes "GET" ∷ [])
    ∷ handler_for file_server (codes "GET" ∷ [])
    ∷ []

abbrev pub get_request : WwwRequest
get_request = record (blank_request [] 0) { method = codes "GET"; target = codes "/a" }

abbrev done_request : WwwRequest
done_request = record get_request { rewrites_done = true }

on_next_handler_total_example :
    on_next_handler prefix_engine handlers 4 get_request
    ≡ some (poll prefix_engine handlers get_request)
on_next_handler_total_example =
    on_next_handler_total prefix_engine handlers get_request (omega arith) refl

served :
    on_next_handler prefix_engine handlers 4 done_request
    ≡ some (record done_request { handler_index = 3 }, respond_file (codes "/b"))
unfolding on_next_handler is_skipped next_index handle file_server_handle serve_path contains
    text_eq starts_with is_rewrite_handler_class
served = refl

on_next_handler-IsAnswered_example :
    IsAnswered prefix_engine handlers (codes "GET") (respond_file (codes "/b"))
on_next_handler-IsAnswered_example =
    on_next_handler-IsAnswered prefix_engine handlers done_request
      (record done_request { handler_index = 3 }) (respond_file (codes "/b")) (omega arith) refl
      served (cc)

on_next_handler-IsServable_example : IsServable prefix_engine (codes "/b")
on_next_handler-IsServable_example =
    on_next_handler-IsServable prefix_engine handlers done_request
      (record done_request { handler_index = 3 }) (respond_file (codes "/b")) (omega arith) refl
      served (codes "/b") refl

get_is_known : contains all_methods (codes "GET") ≡ true
unfolding contains text_eq
get_is_known = refl

init_methods-contains_example :
    (contains (init_methods (codes "*" ∷ codes "^GET" ∷ [])) (codes "GET") ≡ (
      asks_for (codes "*" ∷ codes "^GET" ∷ []) (codes "GET")
      && not (contains (codes "*" ∷ codes "^GET" ∷ []) (codes "^GET"))))
    × (contains (init_methods (codes "*" ∷ codes "^GET" ∷ [])) (codes "^GET")
        ≡ contains (codes "*" ∷ codes "^GET" ∷ []) (codes "^GET"))
init_methods-contains_example =
    init_methods-contains (codes "*" ∷ codes "^GET" ∷ []) (codes "GET") get_is_known

abbrev copies : {A : Type 0} → ℕ → A → List A
copies zero x = []
copies (suc n) x = x ∷ copies n x

length-copies : {A : Type 0} (n : ℕ) (x : A) → length (copies n x) ≡ n
length-copies zero x = refl
length-copies (suc n) x = omega (arith, length-copies n x)

copies-All : {A : Type 0} (P : A → Type 0) (n : ℕ) (x : A) → P x → All P (copies n x)
copies-All P zero x p = tt
copies-All P (suc n) x p = (p, copies-All P n x p)

put_is_skipped : is_skipped (handler_for drop (codes "PUT" ∷ [])) get_request ≡ true
unfolding is_skipped contains text_eq
put_is_skipped = refl

on_next_handler_diverges_example :
    on_next_handler prefix_engine
      (copies 256 (handler_for drop (codes "PUT" ∷ [])))
      1000
      get_request
    ≡ none
on_next_handler_diverges_example =
    on_next_handler_diverges prefix_engine (copies 256 (handler_for drop (codes "PUT" ∷ []))) 1000
      get_request (omega (arith, length-copies 256 (handler_for drop (codes "PUT" ∷ []))))
      (omega arith)
      (copies-All (λ h. is_skipped h get_request ≡ true) 256 (handler_for drop (codes "PUT" ∷ []))
        put_is_skipped)
