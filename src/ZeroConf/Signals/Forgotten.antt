-- ===== src/ZeroConf/Signals/Forgotten.antt =====
-- The death of a module, as the module that announces services sees it.
use qt_sss_shttps.Common.{◌≡◌, refl, ◌∙◌, ap, some, List, [], ◌∷◌, arith}
use qt_sss_shttps.Text.{Text}
use qt_sss_shttps.Conf.{Conf}
use qt_sss_shttps.Conf.Settings.{module_uid}
use qt_sss_shttps.Module.{stop_module, die_module}
use qt_sss_shttps.ZeroConf.{AppNames, Descriptor}
use qt_sss_shttps.ZeroConf.Announcer.{
  Announcer, on_start_services, on_stop_services, without_owner, on_remove_descriptors,
  clear_pointers,
}
use qt_sss_shttps.ZeroConf.Signals.{deliver_signal, deliver_signals, signals_of, IsSound}
use qt_sss_shttps.ZeroConf.Signals.Sound.{
  IsSettled, on_stop_services-Settles, on_start_services-Settles, without_owner-sound,
}

pub deliver_signals-die :
    (n : AppNames) (c : Conf) (a b d : Announcer)
    → on_stop_services (module_uid c) a ≡ some b
    → on_start_services (module_uid c) b ≡ some d
    → deliver_signals n (signals_of (module_uid c) (die_module c)) a
      ≡ some (record d { descriptors = without_owner (module_uid c) d.descriptors })
unfolding die_module stop_module signals_of deliver_signals deliver_signal on_remove_descriptors
deliver_signals-die n c a b d e f = rw (e, deliver_signals, f, on_remove_descriptors) refl

without_owner-cleared :
    (uid : Text) (ds : List Descriptor)
    → clear_pointers (without_owner uid ds) ≡ without_owner uid (clear_pointers ds)
unfolding clear_pointers without_owner
without_owner-cleared uid [] = refl
without_owner-cleared uid (d ∷ ds) = ground (arith, without_owner-cleared uid ds)

-- What the signals of a death leave of the module that announces services.
pub record IsForgotten (uid : Text) (a b : Announcer) : Type 0 where
  pub is_sound : IsSound b
  pub others : clear_pointers b.descriptors ≡ without_owner uid (clear_pointers a.descriptors)

pub settled-IsForgotten :
    (uid : Text) (a b d : Announcer)
    → IsSettled a b
    → IsSettled b d
    → IsForgotten uid a (record d { descriptors = without_owner uid d.descriptors })
settled-IsForgotten uid a b d s t = record {
  is_sound = without_owner-sound uid d.descriptors d.alive d.created t.is_sound;
  others =
      without_owner-cleared uid d.descriptors
      ∙ ap (without_owner uid) (t.same_descriptors ∙ s.same_descriptors);
}

-- The signals of the death of a module, where every pointer of a descriptor is to a living service
-- of its own: all calls return; the descriptors are those that were there, in order, without those
-- of the module; and every pointer is to a living service of its own again.
pub die_module-IsForgotten :
    (n : AppNames) (c : Conf) (a : Announcer)
    → IsSound a
    → (b : Announcer) × ((deliver_signals n (signals_of (module_uid c) (die_module c)) a ≡ some b)
        × IsForgotten (module_uid c) a b)
die_module-IsForgotten n c a h =
    let uid = module_uid c in
    let (b, (e, s)) = on_stop_services-Settles uid a h in
    let (d, (f, t)) = on_start_services-Settles uid b s.is_sound in
    (
      record d { descriptors = without_owner uid d.descriptors },
      (deliver_signals-die n c a b d e f, settled-IsForgotten uid a b d s t),
    )
