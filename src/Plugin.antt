-- ===== src/Plugin.antt =====
-- The plugin put together (internal/plugin/plugin.go): the service, the controller, the node and the
-- identity that the mode asks for, behind one server.
pub mod Settings
pub mod Modes
pub mod Version
pub mod Start
pub mod Shutdown
use upcloud_csi.Base.{pos, Option, none, some, List, String, str_eq, if◌then◌else◌}
use upcloud_csi.Go.{
  Action, Result, ok, err, panic, plain, wrap, pure, raise, lift, map_error, ◌>>=◌, ◌>>◌,
}
use upcloud_csi.Service.Client.{Client, UpcloudService}
use upcloud_csi.Service.Upcloud.{upcloud_service, new_upcloud_service_from_credentials}
use upcloud_csi.Service.Metrics.{Instrumented, instrumented_service}
use upcloud_csi.Controller.{Controller, Library}
use upcloud_csi.Controller.Requests.{new_controller}
use upcloud_csi.Filesystem.{Filesystem}
use upcloud_csi.Filesystem.System.{System}
use upcloud_csi.Filesystem.Linux.{new_linux_filesystem, linux_filesystem}
use upcloud_csi.Node.{Node, new_node}
use upcloud_csi.Node.Zone.{Response, resolve_zone}
use upcloud_csi.Identity.{Identity, new_identity}
use upcloud_csi.Server.Address.{Url}
use upcloud_csi.Server.Metrics.{Registry, upcloud_metrics}
use upcloud_csi.Server.{PluginServer, new_plugin_server_at}
use upcloud_csi.Plugin.Version.{Build, get_version}
use upcloud_csi.Plugin.Settings.{
  Config, max_volumes_per_node, driver_mode_controller, driver_mode_node, driver_mode_monolith,
}

-- What the plugin is linked with and runs on: what the build sets, the SDK's client for the credentials (a user name and a
-- password, or a token), the mutexes, the third-party packages and the operating system.
pub record Surroundings (S : Type 0) : Type 0 where
  pub build : Build
  pub dial : String → String → Option String → Client S
  pub lock : String → S → S
  pub unlock : String → S → S
  pub library : Library
  pub system : System S
  pub parse_url : String → Result Url
  pub registry : Registry S
  pub http_get : String → Action S (Response S)

-- The controller counts its calls of the service, so its state holds the counters.
abbrev pub Server : Type 0 → Type 0
Server S = PluginServer (Controller (Instrumented S)) (Node S)

abbrev pub metadata_region_endpoint : String
metadata_region_endpoint = "http://169.254.169.254/metadata/v1/region"

module _ {S : Type 0} (around : Surroundings S) where
  -- The service for the credentials, counted.
  unfoldable pub service_of : Config S → Result (UpcloudService S)
  unfolding new_upcloud_service_from_credentials
  service_of c =
      new_upcloud_service_from_credentials around.dial around.lock around.unlock c.username
        c.password c.token

  unfoldable pub controller_of : Config S → UpcloudService S → Result (Controller (Instrumented S))
  unfolding new_controller instrumented_service
  controller_of c svc =
      new_controller (instrumented_service (upcloud_service svc)) c.zone c.node_host
        max_volumes_per_node c.labels around.library

  unfoldable pub node_of : Config S → Filesystem S → Result (Node S)
  unfolding new_node
  node_of c fs =
      new_node c.node_host c.zone (pos max_volumes_per_node) fs around.system.os
        around.library.parses_uuid

  unfoldable pub identity_of : Config S → Identity
  unfolding new_identity get_version
  identity_of c = new_identity c.driver_name (get_version around.build)

  unfoldable pub serve :
      Config S → Option (Controller (Instrumented S)) → Option (Node S) → Action S (Server S)
  unfolding new_plugin_server_at identity_of
  serve c controller node =
      new_plugin_server_at around.registry around.parse_url c.plugin_server_address controller node
        (some (identity_of c))

  unfoldable pub new_node_plugin_server : Config S → Filesystem S → Action S (Server S)
  unfolding node_of serve
  new_node_plugin_server c fs = do csi_node ← lift (node_of c fs); serve c none (some csi_node)

  unfoldable pub new_controller_plugin_server : Config S → Action S (Server S)
  unfolding service_of upcloud_metrics controller_of serve
  new_controller_plugin_server c = do
    svc ← lift (service_of c)
    upcloud_metrics around.registry
    csi_controller ← lift (controller_of c svc)
    serve c (some csi_controller) none

  unfoldable pub new_monolith_plugin_server : Config S → Filesystem S → Action S (Server S)
  unfolding service_of upcloud_metrics controller_of node_of serve
  new_monolith_plugin_server c fs = do
    svc ← lift (service_of c)
    upcloud_metrics around.registry
    csi_controller ← lift (controller_of c svc)
    csi_node ← lift (node_of c fs)
    serve c (some csi_controller) (some csi_node)

  -- The zone that is configured, or else the one of the instance.
  unfoldable pub resolve_config_zone : Config S → String → Action S (Config S)
  unfolding resolve_zone
  resolve_config_zone c endpoint =
      if str_eq c.zone ""
      then (do
        zone ← map_error wrap (resolve_zone around.http_get endpoint)
        pure (record c { zone = zone }))
      else pure c

  -- The filesystem that is given, or else the one of the host, whose tools must be there.
  unfoldable pub filesystem_of : Config S → Action S (Filesystem S)
  unfolding new_linux_filesystem linux_filesystem
  filesystem_of c s = elim c.filesystem [
    | some fs ↦ (ok fs, s)
    | none ↦
        let (m, checked, s') = new_linux_filesystem c.filesystem_types around.system s in
        (lift checked >>= λ u. pure (linux_filesystem m)) s'
  ]

  unfoldable pub serve_mode : Config S → Filesystem S → Action S (Server S)
  unfolding new_controller_plugin_server new_node_plugin_server new_monolith_plugin_server
  serve_mode c fs =
      if str_eq c.mode driver_mode_controller
      then new_controller_plugin_server c
      else if str_eq c.mode driver_mode_node
      then new_node_plugin_server c fs
      else if str_eq c.mode driver_mode_monolith
      then new_monolith_plugin_server c fs
      else raise (plain "unknown driver mode")

  unfoldable pub new_plugin_server : Config S → Action S (Server S)
  unfolding filesystem_of resolve_config_zone serve_mode
  new_plugin_server c = do
    fs ← filesystem_of c
    c' ← resolve_config_zone c metadata_region_endpoint
    serve_mode c' fs
