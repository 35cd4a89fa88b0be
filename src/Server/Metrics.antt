-- ===== src/Server/Metrics.antt =====
-- The metrics of the driver and the HTTP server that gives them out (internal/server/metrics.go).
-- The registry of Prometheus and its handler are third-party code, and parameters.
use upcloud_csi.Base.{ℕ, ◌*◌, Bool, List, [], ◌∷◌, String, if◌then◌else◌}
use upcloud_csi.Go.{Action, Result, ok, wrap, pure, lift, catch, map_error, for_each, ◌>>=◌, ◌>>◌}
use upcloud_csi.Server.Address.{Url}
use upcloud_csi.Server.Health.{Handler, HttpServer, Http, second}

-- What is registered: the names of the options, the labels, and the buckets in milliseconds.
pub data Collector : Type 0 where
  process_collector go_collector : Collector
  counter_vec gauge_vec : String → List String → Collector
  histogram_vec : String → List String → List ℕ → Collector

-- The registry, and the flag of `metricsOnce`.
pub record Registry (S : Type 0) : Type 0 where
  pub once : S → Bool
  pub set_once : S → S
  pub new_registry : Action S (Unit {0})
  pub must_register : Collector → Action S (Unit {0})

abbrev pub csi_ops_total : Collector
csi_ops_total = counter_vec "csi_plugin_operations_total" ("method" ∷ "status" ∷ [])

abbrev pub csi_ops_duration : Collector
csi_ops_duration =
    histogram_vec "csi_plugin_operation_duration_seconds" ("method" ∷ [])
      (5 ∷ 10 ∷ 25 ∷ 50 ∷ 100 ∷ 250 ∷ 500 ∷ 1000 ∷ 2500 ∷ 5000 ∷ 10000 ∷ [])

abbrev pub csi_ops_in_flight : Collector
csi_ops_in_flight = gauge_vec "csi_plugin_operations_in_flight" ("method" ∷ [])

abbrev pub upcloud_api_requests : Collector
upcloud_api_requests = counter_vec "upcloud_api_requests_total" ("method" ∷ "result" ∷ [])

abbrev pub upcloud_api_duration : Collector
upcloud_api_duration =
    histogram_vec "upcloud_api_request_duration_seconds" ("method" ∷ [])
      (10 ∷ 25 ∷ 50 ∷ 100 ∷ 250 ∷ 500 ∷ 1000 ∷ 2500 ∷ 5000 ∷ 10000 ∷ 30000 ∷ [])

abbrev pub collectors : List Collector
collectors =
    process_collector ∷ go_collector ∷ csi_ops_total ∷ csi_ops_duration ∷ csi_ops_in_flight
    ∷ upcloud_api_requests ∷ upcloud_api_duration ∷ []

pub record MetricsServer (S : Type 0) : Type 0 where
  pub srv : HttpServer S
  pub listen : Url

abbrev metrics_timeout : ℕ
metrics_timeout = 15

module _ {S : Type 0} (m : Registry S) where
  -- The function that `metricsOnce` runs.
  unfoldable pub register_all : Action S (Unit {0})
  register_all = m.new_registry >> for_each m.must_register collectors

  -- `Once.Do`, which counts a function as done however it ends.
  unfoldable pub init_metrics : Action S (Unit {0})
  unfolding register_all
  init_metrics s = if m.once s then (ok tt, s) else let (r, t) = register_all s in (r, m.set_once t)

  unfoldable pub upcloud_metrics : Action S (Collector × Collector)
  unfolding init_metrics
  upcloud_metrics = init_metrics >> pure (upcloud_api_requests, upcloud_api_duration)

  -- The handler of promhttp is a parameter.
  unfoldable pub new_metrics_server :
      (String → Result Url) → Handler S → String → Action S (MetricsServer S)
  unfolding init_metrics
  new_metrics_server parse_url give_out addr = do
    listen ← lift (parse_url addr)
    init_metrics
    pure (record {
      srv = record {
        handler = ("/metrics", give_out) ∷ [];
        read_header_timeout = metrics_timeout * second;
      };
      listen = listen;
    })

module _ {S L : Type 0} (http : Http S L) where
  unfoldable pub run_metrics_server : MetricsServer S → Action S (Unit {0})
  run_metrics_server server = do
    listener ← map_error wrap (http.listen_at server.listen.scheme server.listen.host)
    http.serve server.srv listener

  -- An error of `Close` is logged only.
  unfoldable pub stop_metrics_server : MetricsServer S → Action S (Unit {0})
  stop_metrics_server server = catch (http.close server.srv) (λ e. pure tt)
