-- ===== src/Conf/Settings.antt =====
-- The getters and setters of ModuleConf. A setter takes whether the file is storage first.
use qt_sss_shttps.Common.{ℕ, Bool, List, []}
use qt_sss_shttps.Text.{Text, codes}
use qt_sss_shttps.Json.{Json, Items, array, to_array}
use qt_sss_shttps.Conf.{
  Storage, Conf, flag, set_flag, text_at, set_text, port_at, set_port, texts_at, set_texts,
  value_at, insert_at,
}

unfoldable pub is_active : Conf → Bool
is_active = flag (codes "bActive")

unfoldable pub set_active : Storage → Bool → Conf → Conf
set_active = set_flag (codes "bActive")

unfoldable pub is_list_black : Conf → Bool
is_list_black = flag (codes "bListIPisBlackNotWhite")

unfoldable pub set_list_black_or_white : Storage → Bool → Conf → Conf
set_list_black_or_white = set_flag (codes "bListIPisBlackNotWhite")

unfoldable pub local_ip : Conf → Text
local_ip = text_at (codes "sListenIPorHostname") (codes "0.0.0.0")

unfoldable pub set_local_ip : Storage → Text → Conf → Conf
set_local_ip = set_text (codes "sListenIPorHostname") (codes "0.0.0.0")

unfoldable pub module_class : Conf → Text
module_class = text_at (codes "sClass") (codes "Unknown")

unfoldable pub set_module_class : Storage → Text → Conf → Conf
set_module_class = set_text (codes "sClass") (codes "Unknown")

unfoldable pub module_uid : Conf → Text
module_uid = text_at (codes "sUID") (codes "Unnamed")

unfoldable pub set_module_uid : Storage → Text → Conf → Conf
set_module_uid = set_text (codes "sUID") (codes "Unnamed")

unfoldable pub password : Conf → Text
password = text_at (codes "sPassword") (codes "-")

unfoldable pub set_password : Storage → Text → Conf → Conf
set_password = set_text (codes "sPassword") (codes "-")

unfoldable pub path_cert : Conf → Text
path_cert = text_at (codes "sPathCert") []

unfoldable pub set_path_cert : Storage → Text → Conf → Conf
set_path_cert = set_text (codes "sPathCert") []

unfoldable pub path_key : Conf → Text
path_key = text_at (codes "sPathKey") []

unfoldable pub set_path_key : Storage → Text → Conf → Conf
set_path_key = set_text (codes "sPathKey") []

unfoldable pub target_ip : Conf → Text
target_ip = text_at (codes "sTargetIPorHostname") (codes "255.255.255.255")

unfoldable pub set_target_ip : Storage → Text → Conf → Conf
set_target_ip = set_text (codes "sTargetIPorHostname") (codes "255.255.255.255")

unfoldable pub user : Conf → Text
user = text_at (codes "sUser") (codes "admin")

unfoldable pub set_user : Storage → Text → Conf → Conf
set_user = set_text (codes "sUser") (codes "admin")

unfoldable pub local_port : Conf → ℕ
local_port = port_at (codes "uiListenPort") 8080

unfoldable pub set_local_port : Storage → ℕ → Conf → Conf
set_local_port = set_port (codes "uiListenPort") 8080

unfoldable pub local_port1 : Conf → ℕ
local_port1 = port_at (codes "uiListenPort1") 8081

unfoldable pub set_local_port1 : Storage → ℕ → Conf → Conf
set_local_port1 = set_port (codes "uiListenPort1") 8081

unfoldable pub local_port2 : Conf → ℕ
local_port2 = port_at (codes "uiListenPort2") 8082

unfoldable pub set_local_port2 : Storage → ℕ → Conf → Conf
set_local_port2 = set_port (codes "uiListenPort2") 8082

unfoldable pub target_port : Conf → ℕ
target_port = port_at (codes "uiTargetPort") 8080

unfoldable pub set_target_port : Storage → ℕ → Conf → Conf
set_target_port = set_port (codes "uiTargetPort") 8080

unfoldable pub target_port1 : Conf → ℕ
target_port1 = port_at (codes "uiTargetPort1") 8081

unfoldable pub set_target_port1 : Storage → ℕ → Conf → Conf
set_target_port1 = set_port (codes "uiTargetPort1") 8081

unfoldable pub target_port2 : Conf → ℕ
target_port2 = port_at (codes "uiTargetPort2") 8082

unfoldable pub set_target_port2 : Storage → ℕ → Conf → Conf
set_target_port2 = set_port (codes "uiTargetPort2") 8082

unfoldable pub max_connections : Conf → ℕ
max_connections = port_at (codes "uiMaxConnections") 25

unfoldable pub set_max_connections : Storage → ℕ → Conf → Conf
set_max_connections = set_port (codes "uiMaxConnections") 25

unfoldable pub base_paths : Conf → List Text
base_paths = texts_at (codes "aBasePaths")

unfoldable pub set_base_paths : Storage → List Text → Conf → Conf
set_base_paths = set_texts (codes "aBasePaths")

unfoldable pub list_bw : Conf → List Text
list_bw = texts_at (codes "aListIP")

unfoldable pub set_list_bw : Storage → List Text → Conf → Conf
set_list_bw = set_texts (codes "aListIP")

unfoldable pub zero_conf : Conf → List Json
zero_conf c = to_array (value_at (codes "aZeroConf") c)

unfoldable pub set_zero_conf : Storage → Items → Conf → Conf
set_zero_conf storage vs c = insert_at storage (codes "aZeroConf") (array vs) c
