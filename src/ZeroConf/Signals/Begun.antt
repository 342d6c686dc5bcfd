-- ===== src/ZeroConf/Signals/Begun.antt =====
-- The start of the module that announces services.
use qt_sss_shttps.Common.{
  ◌≡◌, refl, ◌∙◌, true, false, ◌&&◌, not, some, List, [], ◌∷◌, ◌++◌, arith, All,
}
use qt_sss_shttps.Conf.Settings.{module_uid, zero_conf}
use qt_sss_shttps.Module.{is_active_module}
use qt_sss_shttps.ZeroConf.{AppNames, Descriptor, is_published}
use qt_sss_shttps.ZeroConf.Announcer.{
  Announcer, publish, publish_each, publish_chosen, clear_pointers, register_each, publish_all,
  start_stopped, start_announcer,
}
use qt_sss_shttps.ZeroConf.Removing.{is_announced}
use qt_sss_shttps.ZeroConf.Signals.{IsSound}
use qt_sss_shttps.ZeroConf.Signals.Sound.{on_start_services-Settles, publish_chosen-IsSettled}
use qt_sss_shttps.ZeroConf.Signals.Registered.{wanted_descriptors, register_each-IsRegistered}

-- Every descriptor that is to be published has a service.
abbrev pub AreAnnounced : List Descriptor → Type 0
AreAnnounced = All (λ d. (is_published d && not (is_announced d)) ≡ false)

publish-announced :
    (d : Descriptor) (a : Announcer)
    → (is_published (publish d a).0 && not (is_announced (publish d a).0)) ≡ false
unfolding publish is_published
publish-announced d a = ground arith

publish_each-AreAnnounced :
    (ds : List Descriptor) (a : Announcer) → AreAnnounced (publish_each (λ d. true) ds a).0
unfolding publish_each
publish_each-AreAnnounced [] a = tt
publish_each-AreAnnounced (d ∷ ds) a = (publish-announced d a, publish_each-AreAnnounced ds _)

-- What the start leaves.
pub record HasBegun (n : AppNames) (a b : Announcer) : Type 0 where
  pub is_sound : IsSound b
  pub runs : b.running ≡ true
  pub announced : AreAnnounced b.descriptors
  pub added :
      clear_pointers b.descriptors
      ≡ clear_pointers a.descriptors ++ wanted_descriptors n (module_uid a.conf) (zero_conf a.conf)

publish_all-HasBegun :
    (n : AppNames) (a b : Announcer)
    → IsSound b
    → clear_pointers b.descriptors
      ≡ clear_pointers a.descriptors ++ wanted_descriptors n (module_uid a.conf) (zero_conf a.conf)
    → HasBegun n a (publish_all b)
unfolding publish_all publish_chosen
publish_all-HasBegun n a b h e =
    let s = publish_chosen-IsSettled (λ d. true) (record b { services = [] }) h in
    record {
      is_sound = s.is_sound;
      runs = refl;
      announced = publish_each-AreAnnounced b.descriptors (record b { services = [] });
      added = s.same_descriptors ∙ e;
    }

start_announcer-stopped :
    (n : AppNames) (a : Announcer)
    → is_active_module a.conf ≡ true
    → a.running ≡ false
    → start_announcer n a ≡ start_stopped n a
unfolding start_announcer
start_announcer-stopped n a e f = ground (arith, e, f)

-- The start of the module that announces services, where it is active and not running and every
-- pointer of a descriptor is to a living service of its own: it returns, and the module is
-- running; the descriptors are those that were there and, behind them, those of its own
-- configuration; every descriptor that is to be published, of whatever module, has a service, and
-- every pointer is to a living service of its own again.
pub start_announcer-HasBegun :
    (n : AppNames) (a : Announcer)
    → is_active_module a.conf ≡ true
    → a.running ≡ false
    → IsSound a
    → (b : Announcer) × ((start_announcer n a ≡ some b) × HasBegun n a b)
unfolding start_stopped
start_announcer-HasBegun n a e f h =
    let uid = module_uid a.conf in
    let r = register_each-IsRegistered n uid (zero_conf a.conf) a h in
    let (b, (g, s)) =
      on_start_services-Settles uid (register_each n uid (zero_conf a.conf) a) r.is_sound in
    (
      publish_all b,
      (
        start_announcer-stopped n a e f ∙ rw (g, start_stopped) refl,
        publish_all-HasBegun n a b s.is_sound (s.same_descriptors ∙ r.added),
      ),
    )
