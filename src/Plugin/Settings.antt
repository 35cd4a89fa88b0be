-- ===== src/Plugin/Settings.antt =====
-- The configuration of the driver (internal/plugin/config/config.go). The flag set is third-party
-- code: it reads the arguments over the default values.
use upcloud_csi.Base.{ℕ, Bool, false, Option, none, List, [], ◌∷◌, String, str_eq, if◌then◌else◌}
use upcloud_csi.Go.{Result, ok, err, panic}
use upcloud_csi.Go.Text.{split}
use upcloud_csi.Filesystem.{Filesystem}

abbrev pub default_driver_name : String
default_driver_name = "storage.csi.upcloud.com"

abbrev pub max_volumes_per_node : ℕ
max_volumes_per_node = 14

abbrev pub driver_mode_monolith : String
driver_mode_monolith = "monolith"

abbrev pub driver_mode_node : String
driver_mode_node = "node"

abbrev pub driver_mode_controller : String
driver_mode_controller = "controller"

pub record Config (S : Type 0) : Type 0 where
  pub node_host : String
  pub zone : String
  pub username : String
  pub password : String
  pub token : String
  pub driver_name : String
  pub print_version : Bool
  pub mode : String
  pub log_level : String
  pub labels : List String
  pub filesystem_types : List String
  pub plugin_server_address : String
  pub health_server_address : String
  pub metrics_server_address : String
  pub filesystem : Option (Filesystem S)

-- What the flags say where they are not given.
abbrev pub default_config : {S : Type 0} → Config S
default_config = record {
  node_host = "";
  zone = "";
  username = "";
  password = "";
  token = "";
  driver_name = default_driver_name;
  print_version = false;
  mode = driver_mode_monolith;
  log_level = "info";
  labels = [];
  filesystem_types = "ext3" ∷ "ext4" ∷ "xfs" ∷ [];
  plugin_server_address = "unix:///var/lib/kubelet/plugins/storage.csi.upcloud.com/csi.sock";
  health_server_address = "tcp://127.0.0.1:13071";
  metrics_server_address = "tcp://0.0.0.0:8090";
  filesystem = none;
}

abbrev pub or_env : (String → String) → String → String → String
or_env getenv name given = if str_eq given "" then getenv name else given

abbrev pub labels_or_env : (String → String) → List String → List String
labels_or_env getenv [] = split 44 (getenv "STORAGE_LABELS")
labels_or_env getenv (l ∷ ls) = l ∷ ls

-- The variables of the environment, where the flags give nothing.
unfoldable pub with_environment : {S : Type 0} → (String → String) → Config S → Config S
with_environment getenv c = record c {
  labels = labels_or_env getenv c.labels;
  username = or_env getenv "UPCLOUD_USERNAME" c.username;
  password = or_env getenv "UPCLOUD_PASSWORD" c.password;
  token = or_env getenv "UPCLOUD_TOKEN" c.token;
}

unfoldable pub parse :
    {S : Type 0}
    → (Config S → List String → Result (Config S))
    → (String → String)
    → List String
    → Result (Config S)
unfolding with_environment
parse parse_flags getenv os_args = elim (parse_flags default_config os_args) [
  | ok c ↦ ok (with_environment getenv c)
  | err e ↦ err e
  | panic ↦ panic
]
