-- ===== src/ZeroConf/Signals.antt =====
-- The signals by which the modules have their services announced, as AppController.cpp connects them.
pub mod Objects
pub mod Turned
pub mod Sound
pub mod Registered
pub mod Served
pub mod Forgotten
pub mod Orphaned
pub mod Begun
use qt_sss_shttps.Common.{
  ◌==◌, ◌≡◌, ℕ, Bool, true, false, ◌&&◌, ◌||◌, not, Option, none, some, List, [], ◌∷◌, ltb,
}
use qt_sss_shttps.Text.{Text}
use qt_sss_shttps.Module.{
  Effect, register_service, unregister_services, start_services, stop_services, bus_message,
}
use qt_sss_shttps.ZeroConf.{AppNames, Descriptor, new_descriptor}
use qt_sss_shttps.ZeroConf.Announcer.{
  Announcement, Announcer, is_alive, on_add_descriptor, on_remove_descriptors, on_start_services,
  on_stop_services,
}

-- A signal of the module with that name, as it reaches the module that announces services: by the
-- slots of the controller, which send it on, or directly where the module is that one itself. The
-- messages of the bus are no business of these slots.
unfoldable pub deliver_signal : AppNames → (sender : Text) → Effect → Announcer → Option Announcer
deliver_signal n sender (register_service fs) a =
    some (on_add_descriptor (new_descriptor n sender fs) a)
deliver_signal n sender (unregister_services uid) a = on_remove_descriptors uid a
deliver_signal n sender (start_services uid) a = on_start_services uid a
deliver_signal n sender (stop_services uid) a = on_stop_services uid a
deliver_signal n sender (bus_message receivers message) a = some a

-- Signals of any modules, in the order in which they are sent.
unfoldable pub deliver_signals : AppNames → List (Text × Effect) → Announcer → Option Announcer
deliver_signals n [] a = some a
deliver_signals n ((sender, e) ∷ es) a = elim (deliver_signal n sender e a) [
  | none ↦ none
  | some b ↦ deliver_signals n es b
]

unfoldable pub signals_of : Text → List Effect → List (Text × Effect)
signals_of uid [] = []
signals_of uid (e ∷ es) = (uid, e) ∷ signals_of uid es

abbrev pub has_number : ℕ → Option ℕ → Bool
has_number m none = false
has_number m (some n) = m == n

-- A descriptor has that service.
unfoldable pub points : ℕ → List Descriptor → Bool
points m [] = false
points m (d ∷ ds) = has_number m d.announced || points m ds

-- The service of a descriptor lives, has a number that was given out, and is not that of one of
-- the descriptors behind it.
unfoldable pub sound_one :
    Option ℕ → List Descriptor → List (ℕ × Announcement) → (created : ℕ) → Bool
sound_one none ds xs k = true
sound_one (some n) ds xs k = is_alive n xs && (not (points n ds) && ltb n k)

unfoldable pub sound : List Descriptor → List (ℕ × Announcement) → (created : ℕ) → Bool
sound [] xs k = true
sound (d ∷ ds) xs k = sound_one d.announced ds xs k && sound ds xs k

abbrev pub IsSound : Announcer → Type 0
IsSound a = sound a.descriptors a.alive a.created ≡ true
