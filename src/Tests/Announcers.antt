-- ===== src/Tests/Announcers.antt =====
-- The announcement of services and the settings on concrete inputs.
use qt_sss_shttps.Common.{◌≡◌, refl, true, false, none, some, List, [], ◌∷◌, pos}
use qt_sss_shttps.Text.{codes, text_eq, is_empty}
use qt_sss_shttps.Json.{Fields, end, field, str, bool, number, value, to_string, to_int, to_object}
use qt_sss_shttps.Conf.{to_uint16, text_at, value_at}
use qt_sss_shttps.Conf.Settings.{module_uid}
use qt_sss_shttps.ZeroConf.{FoundService, AppNames, Descriptor, new_descriptor, blank_descriptor}
use qt_sss_shttps.ZeroConf.Described.{IsDescribed, new_descriptor-IsDescribed}
use qt_sss_shttps.ZeroConf.Announcer.{
  Announcement, Announcer, new_announcer, stop_announcer, stop_all, on_stop_services,
  put_descriptors, stop_owned, stop_one, cons_stopped, clear_pointers, withdraw_each, withdraw,
  is_alive, delete_object,
}
use qt_sss_shttps.ZeroConf.Stopping.{stop_announcer-again}
use qt_sss_shttps.Settings.{Surroundings}
use qt_sss_shttps.ZeroConf.Browser.{
  unknown_protocol, known_protocol, new_browser_for, added, removed,
}
use qt_sss_shttps.ZeroConf.Browser.Watched.{
  Step, starts, stops, signals, run, IsWatching, run-IsWatching,
}
use qt_sss_shttps.Tests.Confs.{disk_file}
use qt_sss_shttps.Tests.Modules.{module_conf}

abbrev pub names : AppNames
names = record {
  short_name = codes "QtSssShttps";
  full_name = codes "QtSssShttps_64";
  version = codes "0.1";
}

abbrev pub entry : Fields
entry =
    field (codes "uiPort") (number (pos 443))
      (field (codes "sType") (str (codes "_https._tcp")) (field (codes "bPublish") (bool true) end))

new_descriptor-IsDescribed_example :
    IsDescribed names (codes "app") entry (new_descriptor names (codes "app") entry)
unfolding new_descriptor is_empty value text_eq to_int to_uint16 to_string
new_descriptor-IsDescribed_example = new_descriptor-IsDescribed names (codes "app") entry refl

abbrev some_announcement : Announcement
some_announcement = record {
  records = [];
  name = codes "a";
  service_type = codes "_https._tcp";
  domain = codes "local";
  port = 443;
}

abbrev announced_by_app : Descriptor
announced_by_app = record (blank_descriptor (codes "app") entry) {
  is_fine = true;
  announced = some 0;
}

-- One service of the module app is announced.
abbrev pub announcing : Announcer
announcing = record (new_announcer module_conf) {
  running = true;
  descriptors = announced_by_app ∷ [];
  services = 0 ∷ [];
  created = 1;
  alive = (0, some_announcement) ∷ [];
}

abbrev stopped_once : Announcer
stopped_once = record announcing {
  running = false;
  descriptors = record announced_by_app { announced = none } ∷ [];
  alive = [];
}

stop_announcer-again_example : stop_announcer stopped_once ≡ none
unfolding stop_announcer stop_all on_stop_services put_descriptors stop_owned stop_one cons_stopped
    clear_pointers withdraw_each withdraw is_alive delete_object module_uid text_at value_at
    to_object to_string value text_eq
stop_announcer-again_example = stop_announcer-again announcing stopped_once 0 [] refl refl

abbrev pub small_host : Surroundings
small_host = record {
  trim = λ t. t;
  application_name = codes "QtSssShttps";
  documents = codes "/home/luke";
  settings_file = λ path. [];
  configurations = λ path. [];
  read_json = λ path. none;
  storage = disk_file;
}

abbrev found_printer : FoundService
found_printer = record {
  domain = codes "local";
  name = codes "printer";
  port = 631;
  service_type = codes "_ipp._tcp";
  host = codes "printer.local";
  ip = codes "10.0.0.7";
  ipv6 = [];
  interface_index = 2;
  txt = [];
}

abbrev watched : List Step
watched =
    starts ∷ signals (added found_printer) ∷ starts ∷ signals (removed found_printer) ∷ stops ∷ []

run-IsWatching_example :
    IsWatching
      (codes "_ipp._tcp")
      (known_protocol unknown_protocol)
      (run watched (new_browser_for (codes "_ipp._tcp") unknown_protocol))
run-IsWatching_example = run-IsWatching (codes "_ipp._tcp") unknown_protocol watched
