-- ===== src/Tests/Modules.antt =====
-- Modules, their messages and their set-up on concrete inputs.
use qt_sss_shttps.Common.{◌≡◌, true, false, none, [], ◌∷◌, ◌&&◌, not, if◌then◌else◌}
use qt_sss_shttps.Text.{codes}
use qt_sss_shttps.Json.{Fields, end, field, str, bool, object, array, cons, nil, value, to_string}
use qt_sss_shttps.Conf.{Conf}
use qt_sss_shttps.Conf.Settings.{list_bw, is_list_black}
use qt_sss_shttps.Www.Server.{is_blocked_ip}
use qt_sss_shttps.Module.{on_bus_message, is_accepted}
use qt_sss_shttps.Module.Replies.{IsAnswering, one_if}
use qt_sss_shttps.Module.Handled.{is_replied, on_bus_message-IsAnswering}
use qt_sss_shttps.HttpsServer.Setup.{Resolver, make_server}
use qt_sss_shttps.Tests.Confs.{disk_file}
use qt_sss_shttps.HttpsServer.Setup.Configured.{some_stands_for, make_server-is_blocked_ip}

abbrev pub module_conf : Conf
module_conf = record {
  changed = false;
  is_ok = true;
  document = object (
      field (codes "bActive") (bool true)
        (field (codes "aListIP") (array (cons (str (codes "example.org")) nil)) end));
  stored = none;
}

abbrev pub ping_message : Fields
ping_message =
    field (codes "command") (str (codes "ping")) (field (codes "sender") (str (codes "app")) end)

on_bus_message-IsAnswering_example :
    IsAnswering
      (one_if (
        is_accepted ping_message module_conf
        && is_replied (to_string [] (value (codes "command") ping_message)) ping_message))
      ping_message
      (on_bus_message disk_file ping_message module_conf)
on_bus_message-IsAnswering_example = on_bus_message-IsAnswering disk_file ping_message module_conf

abbrev pub local_resolver : Resolver
local_resolver = record {
  is_address = λ host. false;
  normal_form = λ host. host;
  addresses = λ host. (codes "::1", false) ∷ (codes "127.0.0.1", true) ∷ [];
}

make_server-is_blocked_ip_example :
    is_blocked_ip (make_server local_resolver module_conf) (codes "127.0.0.1") ≡ (
      if is_list_black module_conf
      then some_stands_for local_resolver (codes "127.0.0.1") (list_bw module_conf)
      else not (some_stands_for local_resolver (codes "127.0.0.1") (list_bw module_conf)))
make_server-is_blocked_ip_example =
    make_server-is_blocked_ip local_resolver module_conf (codes "127.0.0.1")
