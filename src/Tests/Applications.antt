-- ===== src/Tests/Applications.antt =====
-- The first run of an application on a concrete machine.
use qt_sss_shttps.Common.{true, false, some, [], ◌∷◌}
use qt_sss_shttps.Text.{codes}
use qt_sss_shttps.Application.{Machine}
use qt_sss_shttps.Tests.Announcers.{small_host}
use qt_sss_shttps.Tests.Folders.{packed}
use qt_sss_shttps.Tests.Mixed.{of_class}

abbrev machine : Machine
machine = record {
  surroundings = record small_host {
    configurations = λ path. codes "01.json" ∷ [];
    read_json = λ path. some (of_class (codes "ModuleHTTPSserver")).document;
  };
  file_system = packed;
  command_line = record { path_given = codes "/d"; verbose = false };
  opens = λ path. true;
  print_settings = λ h. codes "[General]";
  process_id = 4711;
}
