-- ===== src/Tests/Calls.antt =====
-- Runs of several calls at once, and of the plugin put together.
use upcloud_csi.Base.{ℕ, ◌≡◌, refl, pos, true, false, none, some, [], String, str_eq, if◌then◌else◌}
use upcloud_csi.Go.{ok, pure}
use upcloud_csi.Server.Metrics.{Registry, init_metrics}
use upcloud_csi.Service.NodeSync.{
  NodeSync, Reach, here, after, loads, locks, load, take_mutex, new_node_sync,
}
use upcloud_csi.Service.NodeSync.Exclusion.{mutual_exclusion, no_deadlock, GoesOn}
use upcloud_csi.Service.Upcloud.{upcloud_service}
use upcloud_csi.Service.Metrics.{instrumented_service}
use upcloud_csi.Filesystem.Disks.{check_tools_exists}
use upcloud_csi.Filesystem.Linux.{linux_filesystem}
use upcloud_csi.Plugin.{Surroundings, Server, new_plugin_server}
use upcloud_csi.Plugin.Settings.{Config, default_config}
use upcloud_csi.Plugin.Modes.{new_plugin_server_modes, IsServing}
use upcloud_csi.Tests.Fixtures.{unavailable, no_client, library, host}

-- All calls are for one server.
abbrev one_server : ℕ → String
one_server i = "srv"

-- Call 0 is under the mutex, call 1 waits for it.
abbrev contended : NodeSync
contended = load "srv" 1 (take_mutex 0 0 (load "srv" 0 new_node_sync))

contended-Reach : Reach one_server new_node_sync contended
unfolding load take_mutex
contended-Reach =
    after (after (after here (loads 0 refl refl)) (locks 0 0 refl refl refl)) (loads 1 refl refl)

mutual_exclusion_example : ◌≡◌ {A = ℕ} 0 0
unfolding load take_mutex
mutual_exclusion_example =
    mutual_exclusion one_server contended 0 0 0 0 contended-Reach refl refl refl

no_deadlock_example : GoesOn one_server contended 1
unfolding load take_mutex
no_deadlock_example = no_deadlock one_server contended 1 contended-Reach (λ e. absurd (cc e))

-- A registry that takes every collector, and is made anew at every call.
abbrev any_registry : {S : Type 0} → Registry S
any_registry = record {
  once = λ s. false;
  set_once = λ s. s;
  new_registry = pure tt;
  must_register = λ c. pure tt;
}

-- A host with the tools, and a metadata service that does not answer.
abbrev pub around : {S : Type 0} → Surroundings S
around = record {
  build = record { git_tree_state = "clean"; commit = "abc"; version = "1.0" };
  dial = λ username password token. no_client;
  lock = λ k s. s;
  unlock = λ k s. s;
  library = library;
  system = host (λ cmd args s. (record { text = ""; failure = none }, s)) (λ s. 0) (λ d s. s);
  parse_url = λ addr. ok (record { scheme = "unix"; host = ""; path = "/csi.sock" });
  registry = any_registry;
  http_get = λ endpoint. unavailable;
}

abbrev config : Config (Unit {0})
config = record default_config {
  node_host = "node";
  zone = "fi-hel1";
  username = "user";
  password = "secret";
  mode = "monolith";
}

abbrev served : Server (Unit {0})
served = record {
  listen = record { scheme = "unix"; host = ""; path = "/csi.sock" };
  identity = record {
    driver_name = "storage.csi.upcloud.com";
    driver_version = "1.0";
    ready = true;
  };
  controller = some (record {
    zone = "fi-hel1";
    node_host = "node";
    max_volumes_per_node = 14;
    svc =
        instrumented_service
          (upcloud_service (record { client = no_client; lock = λ k s. s; unlock = λ k s. s }));
    storage_labels = [];
    library = library;
  });
  node = some (record {
    name = "node";
    zone = "fi-hel1";
    max_volumes_per_node = pos 14;
    fs =
        linux_filesystem
          (record { filesystem_types = config.filesystem_types; system = around.system });
    os = around.system.os;
    parses_uuid = library.parses_uuid;
  });
}

new_plugin_server_modes_example :
    (zone : String) × (str_eq zone "" ≡ false)
    × ((if str_eq "fi-hel1" "" then zone else "fi-hel1") ≡ zone)
    × IsServing "monolith" zone served
unfolding new_plugin_server check_tools_exists init_metrics
new_plugin_server_modes_example = new_plugin_server_modes around config served tt tt refl
