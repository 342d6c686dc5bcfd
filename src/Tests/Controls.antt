-- ===== src/Tests/Controls.antt =====
-- The application control module on concrete inputs.
use qt_sss_shttps.Common.{◌≡◌, refl, true, false, some, List, [], ◌∷◌}
use qt_sss_shttps.Www.Server.{new_server}
use qt_sss_shttps.Www.Server.Respond.Prepared.{sent_status}
use qt_sss_shttps.Wss.{new_wss_server}
use qt_sss_shttps.AppControl.{Pem, AppControl, new_app_control, init_app_control}
use qt_sss_shttps.AppControl.Lifecycle.{Call, inits, stops, perform, faults, lacks, run, run-fault}
use qt_sss_shttps.AppControl.Page.{on_www_request, prepare_page}
use qt_sss_shttps.AppControl.Page.Served.{page_status, on_www_request-status}
use qt_sss_shttps.Tests.Samples.{ascii_codec, prefix_engine}
use qt_sss_shttps.Tests.Servers.{bare_machine}
use qt_sss_shttps.Tests.Modules.{local_resolver, module_conf}
use qt_sss_shttps.Tests.Confs.{disk_file}
use qt_sss_shttps.Tests.Polled.{get_request}

abbrev pub no_key : Pem
no_key = record { exists_at = λ path. true; is_certificate = λ path. true; is_key = λ path. false }

abbrev first_calls : List Call
first_calls = inits no_key disk_file (λ n. n) ∷ []

abbrev initialized_control : AppControl
initialized_control =
    init_app_control local_resolver no_key disk_file (λ n. n) (new_app_control module_conf)

run-fault_example :
    lacks (perform local_resolver stops initialized_control)
    ≡ faults local_resolver stops initialized_control
unfolding run perform
run-fault_example = run-fault local_resolver first_calls stops module_conf initialized_control refl

abbrev ready_control : AppControl
ready_control = record (new_app_control module_conf) {
  sockets = some new_wss_server;
  pages = some new_server;
}

on_www_request-status_example :
    sent_status ascii_codec bare_machine new_server (
      prepare_page bare_machine (
        on_www_request ascii_codec prefix_engine bare_machine
          (λ n. n)
          ready_control
          true
          get_request))
    ≡ page_status ascii_codec prefix_engine bare_machine true get_request
on_www_request-status_example =
    on_www_request-status ascii_codec prefix_engine bare_machine (λ n. n) new_server new_wss_server
      ready_control true get_request refl
