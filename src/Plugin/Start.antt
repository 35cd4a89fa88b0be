-- ===== src/Plugin/Start.antt =====
-- The start of the plugin (`Run` of internal/plugin/plugin.go): the servers for the plugin, for health
-- checks and for metrics, made and then run together.
use upcloud_csi.Base.{ℕ, List, [], ◌∷◌, String}
use upcloud_csi.Go.{Action, Result, pure, lift, catch, ◌>>=◌, ◌>>◌}
use upcloud_csi.Logger.{new_logger}
use upcloud_csi.Server.{run_plugin_server, stop_plugin_server}
use upcloud_csi.Server.Health.{
  Handler, Http, HealthServer, new_health_server, run_health_server, stop_health_server,
}
use upcloud_csi.Server.Metrics.{
  MetricsServer, new_metrics_server, run_metrics_server, stop_metrics_server,
}
use upcloud_csi.Server.Group.{Server as Runnable, Signals, run_servers}
use upcloud_csi.Plugin.{Surroundings, Server, new_plugin_server}
use upcloud_csi.Plugin.Settings.{Config}

-- What the process runs on, beside the surroundings of the plugin: logrus, the host's name, HTTP and
-- gRPC servers, the handler of promhttp, signals and the error group.
pub record Process (S L : Type 0) : Type 0 where
  pub around : Surroundings S
  pub parse_level : String → Result ℕ
  pub os_hostname : Action S String
  pub http : Http S L
  pub serve_grpc : Server S → L → Action S (Unit {0})
  pub graceful_stop : Server S → Action S (Unit {0})
  pub give_out : Handler S
  pub signals : Signals S
  pub group : List (Action S (Unit {0})) → Action S (Unit {0}) → Action S (Unit {0})

module _ {S L : Type 0} (p : Process S L) where
  -- The three servers, as the interface `Server`.
  unfoldable pub plugin_runnable : Server S → Runnable S
  unfolding run_plugin_server stop_plugin_server
  plugin_runnable srv = record {
    run = run_plugin_server p.around.system.os p.http.listen_at (p.serve_grpc srv) srv;
    stop = λ sig. stop_plugin_server p.around.system.os (p.graceful_stop srv) srv;
  }

  unfoldable pub health_runnable : HealthServer S → Runnable S
  unfolding run_health_server stop_health_server
  health_runnable srv = record {
    run = run_health_server p.http srv;
    stop = λ sig. stop_health_server p.http srv;
  }

  unfoldable pub metrics_runnable : MetricsServer S → Runnable S
  unfolding run_metrics_server stop_metrics_server
  metrics_runnable srv = record {
    run = run_metrics_server p.http srv;
    stop = λ sig. stop_metrics_server p.http srv;
  }

  -- A host without a name is no error.
  unfoldable pub hostname : Action S String
  hostname = catch p.os_hostname (λ e. pure "")

  abbrev pub servers_of : Server S → HealthServer S → MetricsServer S → List (Runnable S)
  servers_of plugin_server health_server metrics_server =
      plugin_runnable plugin_server
      ∷ health_runnable health_server
      ∷ metrics_runnable metrics_server
      ∷ []

  unfoldable pub run_plugin : Config S → Action S (Unit {0})
  unfolding hostname new_logger new_health_server new_metrics_server new_plugin_server run_servers
  run_plugin c = do
    lift (new_logger p.parse_level c.log_level)
    hostname
    health_server ← lift (new_health_server p.around.parse_url c.health_server_address)
    metrics_server ←
        new_metrics_server p.around.registry p.around.parse_url p.give_out c.metrics_server_address
    plugin_server ← new_plugin_server p.around c
    run_servers p.signals p.group (servers_of plugin_server health_server metrics_server)
