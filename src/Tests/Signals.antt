-- ===== src/Tests/Signals.antt =====
-- The announcement of services for other modules on concrete inputs.
use qt_sss_shttps.Common.{◌≡◌, refl, true, false, some, List, [], ◌∷◌, ℕ}
use qt_sss_shttps.Text.{Text, codes, text_eq}
use qt_sss_shttps.Json.{
  end, field, bool, str, array, cons, nil, object, value, to_bool, to_string, to_object,
}
use qt_sss_shttps.Conf.{Conf, flag, text_at, value_at}
use qt_sss_shttps.Conf.Settings.{is_active, module_uid}
use qt_sss_shttps.Module.{
  Effect, is_active_module, start_module, die_module, start_services, stop_services,
  unregister_services, register_service,
}
use qt_sss_shttps.ZeroConf.{is_published}
use qt_sss_shttps.ZeroConf.Announcer.{Announcer, new_announcer, start_announcer, is_alive}
use qt_sss_shttps.ZeroConf.Signals.{deliver_signals, signals_of, points, sound_one, sound}
use qt_sss_shttps.ZeroConf.Signals.Sound.{Returns, deliver_signals-Returns}
use qt_sss_shttps.ZeroConf.Signals.Served.{IsStarted, start_module-IsStarted}
use qt_sss_shttps.ZeroConf.Signals.Forgotten.{IsForgotten}
use qt_sss_shttps.ZeroConf.Signals.Orphaned.{offers, die_module-orphans}
use qt_sss_shttps.ZeroConf.Signals.Begun.{HasBegun, start_announcer-HasBegun}
use qt_sss_shttps.Tests.Modules.{module_conf}
use qt_sss_shttps.Tests.Announcers.{names, entry, announcing}

-- A module that has one service announced.
abbrev web_conf : Conf
web_conf = record module_conf {
  document = object (
      field (codes "bActive") (bool true) (
        field (codes "sUID") (str (codes "app"))
          (field (codes "aZeroConf") (array (cons (object entry) nil)) end)));
}

-- Another one with the same name starts, both stop, and it dies.
abbrev some_signals : List (Text × Effect)
some_signals =
    (codes "app", register_service entry)
    ∷ (codes "app", start_services (codes "app"))
    ∷ (codes "app", stop_services (codes "app"))
    ∷ (codes "app", unregister_services (codes "app"))
    ∷ []

deliver_signals-Returns_example : Returns announcing (deliver_signals names some_signals announcing)
unfolding sound sound_one points is_alive
deliver_signals-Returns_example = deliver_signals-Returns names some_signals announcing refl

start_module-IsStarted_example :
    (b : Announcer) × ((deliver_signals names
          (signals_of (module_uid web_conf) (start_module web_conf))
          announcing
        ≡ some b)
      × IsStarted names web_conf announcing b)
unfolding is_active_module is_active flag value_at to_object to_bool value text_eq sound sound_one
    points is_alive
start_module-IsStarted_example = start_module-IsStarted names web_conf announcing refl refl refl

die_module-orphans_example :
    (b : Announcer) × ((deliver_signals names
          (signals_of (module_uid web_conf) (die_module web_conf))
          announcing
        ≡ some b)
      × (IsForgotten (module_uid web_conf) announcing b
          × ((m : ℕ) × ((is_alive m b.alive ≡ true) × (points m b.descriptors ≡ false)))))
unfolding is_active_module is_active flag value_at to_object to_bool value text_eq sound sound_one
    points is_alive offers module_uid text_at to_string is_published
die_module-orphans_example = die_module-orphans names web_conf announcing refl refl refl

abbrev new_web : Announcer
new_web = new_announcer web_conf

start_announcer-HasBegun_example :
    (b : Announcer) × ((start_announcer names new_web ≡ some b) × HasBegun names new_web b)
unfolding is_active_module is_active flag value_at to_object to_bool value text_eq sound
start_announcer-HasBegun_example = start_announcer-HasBegun names new_web refl refl refl
