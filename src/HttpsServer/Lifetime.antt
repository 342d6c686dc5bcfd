-- ===== src/HttpsServer/Lifetime.antt =====
-- HTTPS modules from `run` to `quit` of AppController.cpp.
use qt_sss_shttps.Common.{
  ℕ, ◌≡◌, ◌≢◌, refl, ap, ◌∙◌, sym, true, not, none, some, List, [], ◌∷◌, if-both, arith,
  Option-cases, inl, inr, length, All,
}
use qt_sss_shttps.Text.{Text, codes, text_eq}
use qt_sss_shttps.Codec.{Codec}
use qt_sss_shttps.Engine.{Engine}
use qt_sss_shttps.Json.{to_string}
use qt_sss_shttps.Conf.{Storage, Conf, text_at}
use qt_sss_shttps.Conf.Settings.{module_uid, password, set_password}
use qt_sss_shttps.Conf.Laws.{set_text-IsUpdated}
use qt_sss_shttps.Module.{is_active_module, start_module}
use qt_sss_shttps.Www.Server.{start}
use qt_sss_shttps.HttpsServer.Setup.{
  Resolver, HttpsModule, init_module, init_password, make_password, set_up,
}
use qt_sss_shttps.HttpsServer.Running.{
  IsSocketless, HasServer, HasServer-IsSocketless, start_server, started_https, started_by,
  start_active, start_https, https_class, new_https_module, init_module-HasServer, https_class-quit,
}
use qt_sss_shttps.Controller.{Controller, null_pointer, quit, run, load_modules}
use qt_sss_shttps.Controller.Loading.{IsWellFormed}
use qt_sss_shttps.Controller.Loading.Counted.{count_loadable, load_modules-length}
use qt_sss_shttps.Controller.Starting.{IsReady}
use qt_sss_shttps.Controller.Starting.Lived.{HasRun, AllNamed-any, run-HasRun}

-- The making of a password changes no other setting.
pub init_password-text_at :
    (storage : Storage) (random : ℕ → ℕ) (tag default_text : Text) (c : Conf)
    → tag ≢ codes "sPassword"
    → text_at tag default_text (init_password storage random c) ≡ text_at tag default_text c
unfolding init_password set_password text_at
init_password-text_at storage random tag default_text c n =
    if-both (λ (d : Conf). text_at tag default_text d ≡ text_at tag default_text c)
      (text_eq (password c) (codes "-")) _ _
      (ap (to_string default_text) (
        (set_text-IsUpdated (codes "sPassword") (codes "-") storage (make_password random 13)
            c).others_kept
          tag n))
      refl

pub init_password-module_uid :
    (storage : Storage) (random : ℕ → ℕ) (c : Conf)
    → module_uid (init_password storage random c) ≡ module_uid c
unfolding module_uid
init_password-module_uid storage random c =
    init_password-text_at storage random (codes "sUID") (codes "Unnamed") c (ground arith)

module _ (q : Codec) (e : Engine) (z : Resolver) (storage : Storage) (random : ℕ → ℕ) where
  pub init_module-module_uid :
      (m : HttpsModule) → module_uid (init_module q e z storage random m).conf ≡ module_uid m.conf
  unfolding init_module set_up
  init_module-module_uid m = elim (Option-cases m.server) [
    | inl f ↦ rw (f, init_module) (init_password-module_uid storage random m.conf)
    | inr (s, f) ↦ rw (f, init_module) refl
  ]

  init_module-again : (m : HttpsModule) → HasServer m → init_module q e z storage random m ≡ m
  unfolding init_module
  init_module-again m (s, (f, g)) = ground (arith, f)

  pub start_https-same :
      (m : HttpsModule) → HasServer m → start_https q e z storage random true m ≡ some m
  unfolding start_https start_active start_server started_https started_by start
  start_https-same m h =
      if-both (λ o. o ≡ some m) (not (is_active_module m.conf)) _ _ refl
        (ap (λ n. started_https (start_server true (start_module m.conf) n)) (init_module-again m h)
          ∙ (let (s, (f, g)) = h in ground (arith, f)))

  https_class-IsReady : IsReady (https_class q e z storage random true) IsSocketless HasServer
  unfolding https_class
  https_class-IsReady = record {
    weakens = HasServer-IsSocketless;
    inits = λ m h. (
      init_module q e z storage random m,
      (refl, (init_module-HasServer q e z storage random true m h, init_module-module_uid m)),
    );
    starts = λ m h. (m, (start_https-same m h, (h, refl)));
  }

  -- What the run of an application leaves, and that its quit goes through a null pointer.
  pub record HasCrashed (confs : List Conf) (c : Controller HttpsModule) : Type 0 where
    pub ran :
        HasRun
          (https_class q e z storage random true)
          HasServer
          (load_modules (https_class q e z storage random true) storage confs c)
          (run (https_class q e z storage random true) storage confs c)
    pub crashes : quit (https_class q e z storage random true) ran.after ≡ null_pointer

  crashes-of :
      (c : Controller HttpsModule) (uids : List Text)
      → c.uids ≡ uids
      → length uids ≢ 0
      → IsWellFormed (https_class q e z storage random true) c
      → All (λ p. HasServer p.1) c.modules
      → quit (https_class q e z storage random true) c ≡ null_pointer
  crashes-of c [] f n w a = absurd (n refl)
  crashes-of c (uid ∷ uids) f n w a = https_class-quit q e z storage random true uid uids c f w a

  made_module-IsSocketless : (m : HttpsModule) → m.server ≡ none → IsSocketless m
  made_module-IsSocketless m f s g = absurd (let d = sym f ∙ g in cc d)

  -- An application of HTTPS modules that can listen, of whose configurations at least one could
  -- be read and names a known class: its run returns with all loaded modules initialised and
  -- started, and its quit then goes through a null pointer.
  https_class-HasCrashed :
      (confs : List Conf) (c : Controller HttpsModule)
      → IsWellFormed (https_class q e z storage random true) c
      → c.uids ≡ []
      → count_loadable confs ≢ 0
      → HasCrashed confs c
  unfolding https_class
  https_class-HasCrashed confs c w f n =
      let k = https_class q e z storage random true in
      let r =
        run-HasRun k IsSocketless HasServer https_class-IsReady (λ kind conf. refl) (λ kind. true)
          (λ kind conf t. made_module-IsSocketless (new_https_module conf) refl) storage confs c
          (AllNamed-any confs) w f in
      record {
        ran = r;
        crashes =
            crashes-of r.after r.after.uids refl
              (λ p.
                n (
                  sym (load_modules-length k storage confs c f)
                  ∙ (sym (ap length r.same_uids) ∙ p)))
              r.well_formed r.all_up;
      }
