-- ===== src/Application/Modules/Crashing.antt =====
-- `quit` of an application with modules of any class.
use qt_sss_shttps.Common.{
  ℕ, ◌≡◌, refl, ap, ◌∙◌, sym, ◌⊎◌, inl, inr, Bool, true, false, none, some, arith, Option-cases,
  All,
}
use qt_sss_shttps.Conf.{Storage}
use mathlib.Core.Option.{some_inj}
use qt_sss_shttps.Text.{Text, text_eq, contains}
use qt_sss_shttps.Text.Laws.{text_eq_iff, text_eq_self}
use qt_sss_shttps.Hash.{lookup, lookup-has_key}
use qt_sss_shttps.Codec.{Codec}
use qt_sss_shttps.Engine.{Engine}
use qt_sss_shttps.Www.Server.{destroy}
use qt_sss_shttps.HttpsServer.Setup.{Resolver}
use qt_sss_shttps.HttpsServer.Running.{
  https_class, stop_https, same_if, IsSocketless, die_https-none,
}
use qt_sss_shttps.AppControl.{Pem, AppControl, stop_app_control, die_app_control}
use qt_sss_shttps.AppControl.Lifecycle.{is_paired, stopped_control, dead_control}
use qt_sss_shttps.Controller.{ModuleClass, Controller, null_pointer, quit}
use qt_sss_shttps.Controller.Loading.{IsWellFormed, has_key-contains}
use qt_sss_shttps.Controller.Tables.{All-Every}
use qt_sss_shttps.Controller.Quitting.Doomed.{IsDoomed, quit-doomed}
use qt_sss_shttps.Application.Modules.{
  AnyModule, base_module, control_module, https_module, announcing_module, as_module, stop_any,
  die_any, any_class,
}

-- The servers of a module are as the calls of its methods leave them.
abbrev pub IsSafe : {A : Type 0} → AnyModule A → Type 0
IsSafe (base_module c) = Unit
IsSafe (control_module m kept) = is_paired m ≡ true
IsSafe (https_module m) = IsSocketless m
IsSafe (announcing_module m) = Unit

-- A module of one of the two classes with a web server.
abbrev pub is_web : {A : Type 0} → AnyModule A → Bool
is_web (base_module c) = false
is_web (control_module m kept) = true
is_web (https_module m) = true
is_web (announcing_module m) = false

dead_control-none : (m : AppControl) → is_paired m ≡ true → dead_control (die_app_control m) ≡ none
unfolding is_paired dead_control die_app_control stop_app_control destroy
dead_control-none m h = ground arith

module _ (q : Codec) (e : Engine) (z : Resolver) (p : Pem) (storage : Storage) (random : ℕ → ℕ)
    (wss_listens www_listens https_listens : Bool) {A : Type 0} (announcers : ModuleClass A) where
  abbrev K : ModuleClass (AnyModule A)
  K = any_class q e z p storage random wss_listens www_listens https_listens announcers

  -- What stop keeps: the module under one name has a web server.
  abbrev IsWebAt : Text → Text → AnyModule A → Type 0
  IsWebAt fatal uid m = IsSafe m × (text_eq uid fatal ≡ true → is_web m ≡ true)

  stops-any :
      (fatal uid : Text) (m : AnyModule A)
      → IsWebAt fatal uid m
      → (K.stop m ≡ none) ⊎ ((n : AnyModule A) × ((K.stop m ≡ some n) × IsWebAt fatal uid n))
  unfolding any_class stop_any as_module https_class stopped_control same_if
  stops-any fatal uid (base_module c) r = inr (base_module c, (refl, r))
  stops-any fatal uid (control_module m kept) r = elim (Option-cases (stop_app_control m)) [
    | inl f ↦ inl (rw f refl)
    | inr (es, f) ↦ inr (control_module m kept, (rw f refl, r))
  ]
  stops-any fatal uid (https_module m) r = elim (Option-cases (stop_https m)) [
    | inl f ↦ inl (rw f refl)
    | inr (es, f) ↦ inr (https_module m, (rw f refl, r))
  ]
  stops-any fatal uid (announcing_module m) r = elim (Option-cases (announcers.stop m)) [
    | inl f ↦ inl (rw f refl)
    | inr (n, f) ↦ inr (announcing_module n, (rw f refl, r))
  ]

  fails-any : (m : AnyModule A) → IsSafe m → is_web m ≡ true → K.die m ≡ none
  unfolding any_class die_any as_module https_class
  fails-any (base_module c) s w = absurd (cc w)
  fails-any (control_module m kept) s w = rw (dead_control-none m s) refl
  fails-any (https_module m) s w = rw (die_https-none q e z storage random https_listens m s) refl
  fails-any (announcing_module m) s w = absurd (cc w)

  any-IsDoomed : (fatal : Text) → IsDoomed K (IsWebAt fatal) fatal
  any-IsDoomed fatal = record {
    stops = stops-any fatal;
    fails = λ m r. fails-any m r.0 (r.1 (text_eq_self fatal));
  }

  -- The quit of a well-formed application with modules of any class, whose servers are as the
  -- calls of their methods leave them, goes through a null pointer where one of its modules is of
  -- one of the two classes with a web server, whatever the modules that announce services do.
  pub any_class-quit :
      (c : Controller (AnyModule A)) (uid : Text) (m : AnyModule A)
      → IsWellFormed K c
      → All (λ e. IsSafe e.1) c.modules
      → lookup uid c.modules ≡ some m
      → is_web m ≡ true
      → quit K c ≡ null_pointer
  any_class-quit c uid m w a f h =
      quit-doomed K (IsWebAt uid) uid (any-IsDoomed uid) c w
        (sym (ap (λ t. contains t uid) w.same)
          ∙ (sym (has_key-contains uid c.modules) ∙ lookup-has_key uid c.modules m f))
        (λ u n g. (
          All-Every (λ v k. IsSafe k) c.modules a u n g,
          λ i.
              ap is_web
                (some_inj.0 (sym g ∙ (ap (λ v. lookup v c.modules) ((text_eq_iff u uid).0 i) ∙ f)))
              ∙ h,
        ))
