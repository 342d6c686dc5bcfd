-- ===== src/Controller/Plain.antt =====
-- A module of the base class, or of a class that takes the messages of the bus as the base class
-- does, as the controller uses it.
use qt_sss_shttps.Common.{some, List, [], ◌∷◌}
use qt_sss_shttps.Conf.{Storage, Conf}
use qt_sss_shttps.Module.{
  Effect, register_service, unregister_services, start_services, stop_services, bus_message,
  on_bus_message,
}
use qt_sss_shttps.Controller.{Request, sends, ModuleClass}

-- The messages among the signals of a module; the other signals go to the service announcement.
unfoldable pub requests : List Effect → List Request
requests [] = []
requests (bus_message receivers message ∷ es) = sends receivers message ∷ requests es
requests (register_service d ∷ es) = requests es
requests (unregister_services uid ∷ es) = requests es
requests (start_services uid ∷ es) = requests es
requests (stop_services uid ∷ es) = requests es

-- `start`, `stop` and `die` only emit signals, and `init` does nothing.
unfoldable pub plain_class : (storage : Storage) → ModuleClass Conf
plain_class storage = record {
  make = λ kind c. c;
  conf_of = λ c. c;
  init = λ c. some c;
  start = λ c. some c;
  stop = λ c. some c;
  die = λ c. some c;
  on_message = λ message c. some (
    (on_bus_message storage message c).conf,
    requests (on_bus_message storage message c).effects,
  );
}
