-- ===== src/ZeroConf/Signals/Served.antt =====
-- The start of a module, as the module that announces services sees it.
use qt_sss_shttps.Common.{
  ◌≡◌, refl, ◌∙◌, ap, Bool, true, ◌&&◌, not, some, List, [], ◌∷◌, ◌++◌, arith, All, map,
  if◌then◌else◌,
}
use qt_sss_shttps.Text.{Text}
use qt_sss_shttps.Json.{Json, to_object}
use qt_sss_shttps.Conf.{Conf}
use qt_sss_shttps.Conf.Settings.{module_uid, zero_conf}
use qt_sss_shttps.Module.{
  Effect, register_service, start_services, is_active_module, register_services, start_module,
}
use qt_sss_shttps.ZeroConf.{AppNames, Descriptor, is_published}
use qt_sss_shttps.ZeroConf.Announcer.{
  Announcer, is_owned, publish, publish_each, publish_chosen, on_start_services, clear_pointers,
  register_each,
}
use qt_sss_shttps.ZeroConf.Removing.{is_announced}
use qt_sss_shttps.ZeroConf.Signals.{deliver_signal, deliver_signals, signals_of, IsSound}
use qt_sss_shttps.ZeroConf.Signals.Sound.{
  IsSettled, on_stop_services-Settles, publish_chosen-IsSettled, IsSettled-trans,
}
use qt_sss_shttps.ZeroConf.Signals.Registered.{wanted_descriptors, register_each-IsRegistered}

-- The descriptor is not one of that module that is to be published and has no service.
abbrev pub is_served : Text → Descriptor → Bool
is_served uid d = not (is_owned uid d && (is_published d && not (is_announced d)))

-- Every descriptor of that module that is to be published has a service.
abbrev pub AreServed : Text → List Descriptor → Type 0
AreServed uid = All (λ d. is_served uid d ≡ true)

published-is_served :
    (uid : Text) (d : Descriptor) (a : Announcer)
    → is_served uid (if is_owned uid d then publish d a else (d, a)).0 ≡ true
unfolding publish is_published
published-is_served uid d a = ground arith

publish_each-AreServed :
    (uid : Text) (ds : List Descriptor) (a : Announcer)
    → AreServed uid (publish_each (is_owned uid) ds a).0
unfolding publish_each
publish_each-AreServed uid [] a = tt
publish_each-AreServed uid (d ∷ ds) a =
    (published-is_served uid d a, publish_each-AreServed uid ds _)

-- The services of a module are started where the module that announces them is active.
pub on_start_services-AreServed :
    (uid : Text) (a : Announcer)
    → IsSound a
    → is_active_module a.conf ≡ true
    → (b : Announcer) × ((on_start_services uid a ≡ some b)
        × (IsSettled a b × AreServed uid b.descriptors))
unfolding on_start_services publish_chosen
on_start_services-AreServed uid a h e =
    let (b, (f, s)) = on_stop_services-Settles uid a h in
    (
      publish_chosen (is_owned uid) b,
      (
        rw (e, on_start_services, f) refl,
        (
          IsSettled-trans a b (publish_chosen (is_owned uid) b) s
              (publish_chosen-IsSettled (is_owned uid) b s.is_sound),
          publish_each-AreServed uid b.descriptors b,
        ),
      ),
    )

deliver_signals-register :
    (n : AppNames) (uid : Text) (vs : List Json) (es : List Effect) (a : Announcer)
    → deliver_signals n (signals_of uid (map (λ v. register_service (to_object v)) vs ++ es)) a
      ≡ deliver_signals n (signals_of uid es) (register_each n uid vs a)
unfolding deliver_signals deliver_signal signals_of register_each
deliver_signals-register n uid [] es a = refl
deliver_signals-register n uid (v ∷ vs) es a = deliver_signals-register n uid vs es _

-- What the signals of a start leave of the module that announces services.
pub record IsStarted (n : AppNames) (c : Conf) (a b : Announcer) : Type 0 where
  pub is_sound : IsSound b
  pub served : AreServed (module_uid c) b.descriptors
  pub added :
      clear_pointers b.descriptors
      ≡ clear_pointers a.descriptors ++ wanted_descriptors n (module_uid c) (zero_conf c)

start_module-delivered :
    (n : AppNames) (c : Conf) (a : Announcer)
    → is_active_module c ≡ true
    → deliver_signals n (signals_of (module_uid c) (start_module c)) a
      ≡ deliver_signals n
          ((module_uid c, start_services (module_uid c)) ∷ [])
          (register_each n (module_uid c) (zero_conf c) a)
unfolding start_module register_services signals_of
start_module-delivered n c a e =
    rw (e, start_module)
      (deliver_signals-register n (module_uid c) (zero_conf c) (start_services (module_uid c) ∷ [])
        a)

deliver_signals-start :
    (n : AppNames) (uid : Text) (a b : Announcer)
    → on_start_services uid a ≡ some b
    → deliver_signals n ((uid, start_services uid) ∷ []) a ≡ some b
unfolding deliver_signals deliver_signal
deliver_signals-start n uid a b e = rw (e, deliver_signals) refl

-- The signals of the start of an active module, where the module that announces services is
-- active too and every pointer of a descriptor is to a living service of its own: all calls
-- return; the descriptors are those that were there and, behind them, one for every wanted entry
-- of the configuration, in order; every descriptor of the module that is to be published has a
-- service; and every pointer is to a living service of its own again.
pub start_module-IsStarted :
    (n : AppNames) (c : Conf) (a : Announcer)
    → is_active_module c ≡ true
    → is_active_module a.conf ≡ true
    → IsSound a
    → (b : Announcer) × ((deliver_signals n (signals_of (module_uid c) (start_module c)) a ≡ some b)
        × IsStarted n c a b)
start_module-IsStarted n c a e f h =
    let r = register_each-IsRegistered n (module_uid c) (zero_conf c) a h in
    let m = register_each n (module_uid c) (zero_conf c) a in
    let (b, (g, (s, t))) =
      on_start_services-AreServed (module_uid c) m r.is_sound
        (ap is_active_module r.same_conf ∙ f) in
    (
      b,
      (
        start_module-delivered n c a e ∙ deliver_signals-start n (module_uid c) m b g,
        record { is_sound = s.is_sound; served = t; added = s.same_descriptors ∙ r.added },
      ),
    )
