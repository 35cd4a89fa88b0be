-- ===== src/Tests/Process.antt =====
-- Runs of the process: its start, its metrics, its calls and its end.
use upcloud_csi.Base.{
  ◌≡◌, ◌≢◌, refl, Bool, true, false, ◌⊎◌, inl, inr, none, some, List, [], ◌∷◌, map, String,
  if◌then◌else◌,
}
use upcloud_csi.Go.{Action, ok, err, panic, plain, os_error, pure}
use upcloud_csi.Go.Os.{Os}
use upcloud_csi.Logger.{Context, Request, Output, Random, context_correlation_id, assign_id}
use upcloud_csi.Server.Health.{HttpServer, HealthServer}
use upcloud_csi.Server.Metrics.{Collector, Registry, MetricsServer, init_metrics}
use upcloud_csi.Server.Once.{
  RegistryLaws, is_new, kind_of, of_process, of_go, counts, gauges, histograms, init_metrics_once,
}
use upcloud_csi.Server.Group.{Signals, sigterm, listen_syscalls}
use upcloud_csi.Server.Interceptor.{
  Served, IsConcluded, IsCounted, IsTimed, intercept, intercept_lem, short_method,
}
use upcloud_csi.Plugin.{Server}
use upcloud_csi.Plugin.Start.{Process, servers_of, run_plugin}
use upcloud_csi.Plugin.Shutdown.{SocketLaws, IsAbsent, IsCleaned, shutdown_leaves_no_socket}
use upcloud_csi.Plugin.Settings.{Config, parse, default_config}
use upcloud_csi.Main.{Terminal, Exit, status_of, main, main_hides_failure}
use upcloud_csi.Tests.Fixtures.{unavailable, no_os}
use upcloud_csi.Tests.Calls.{around}

-- A registry that panics on a name that it has.
pub record Shelf : Type 0 where
  pub once : Bool
  pub held : List Collector

abbrev shelf : Registry Shelf
shelf = record {
  once = λ s. s.once;
  set_once = λ s. record s { once = true };
  new_registry = λ s. (ok tt, record s { held = [] });
  must_register =
      λ c s. if is_new c s.held then (ok tt, record s { held = c ∷ s.held }) else (panic, s);
}

abbrev shelf_laws : RegistryLaws shelf
shelf_laws = record {
  registered = λ s. s.held;
  emptied = λ s. record s { held = [] };
  added = λ c s. record s { held = c ∷ s.held };
  news = λ s. refl;
  news_empty = λ s. refl;
  registers = λ c s new. rw new refl;
  registers_added = λ c s. refl;
  once_set = λ s. refl;
  set_registered = λ s. refl;
}

abbrev unused : Shelf
unused = record { once = false; held = [] }

init_metrics_once_example :
    (t : Shelf) × (init_metrics shelf unused ≡ (ok tt, t))
    × (map kind_of t.held ≡ (
        histograms "upcloud_api_request_duration_seconds" ("method" ∷ [])
        ∷ counts "upcloud_api_requests_total" ("method" ∷ "result" ∷ [])
        ∷ gauges "csi_plugin_operations_in_flight" ("method" ∷ [])
        ∷ histograms "csi_plugin_operation_duration_seconds" ("method" ∷ [])
        ∷ counts "csi_plugin_operations_total" ("method" ∷ "status" ∷ [])
        ∷ of_go
        ∷ of_process
        ∷ []))
    × (init_metrics shelf t ≡ (ok tt, t))
init_metrics_once_example = init_metrics_once shelf shelf_laws unused refl

-- A host whose state is whether the socket is there.
abbrev socket_os : Os Bool
socket_os = record no_os {
  stat = λ path there. if there then (ok tt, there) else (err (os_error true), there);
  remove = λ path there. if there then (ok tt, false) else (err (os_error true), there);
}

abbrev signals : Signals Bool
signals = record {
  notify = λ sigs. pure tt;
  receive = pure sigterm;
  ignore = pure tt;
  close = pure tt;
}

-- The HTTP servers fail to close.
abbrev process : Process Bool (Unit {0})
process = record {
  around = record around { system = record (around.system) { os = socket_os } };
  parse_level = λ text. ok 4;
  os_hostname = pure "node";
  http = record {
    listen_at = λ scheme address. pure tt;
    serve = λ srv listener. pure tt;
    close = λ srv. unavailable;
  };
  serve_grpc = λ srv listener. pure tt;
  graceful_stop = λ srv. pure tt;
  give_out = λ write_header. pure tt;
  signals = signals;
  group = λ runs listener. unavailable;
}

stat_looks : (there : Bool) → (socket_os.stat "/csi.sock" there).1 ≡ there
stat_looks true = refl
stat_looks false = refl

stat_answers :
    (there : Bool)
    → ((socket_os.stat "/csi.sock" there).0 ≡ ok tt) ⊎ IsAbsent socket_os "/csi.sock" there
stat_answers true = inl refl
stat_answers false = inr (os_error true, refl, refl)

remove_works :
    (there : Bool)
    → (socket_os.stat "/csi.sock" there).0 ≡ ok tt
    → ((socket_os.remove "/csi.sock" there).0 ≡ ok tt)
      × IsAbsent socket_os "/csi.sock" (socket_os.remove "/csi.sock" there).1
remove_works true e = (refl, (os_error true, refl, refl))
remove_works false e = absurd (cc e)

close_returns : (h : HttpServer Bool) (there : Bool) → (process.http.close h there).0 ≢ panic
close_returns h there e = absurd (cc e)

abbrev socket_laws : SocketLaws process "/csi.sock"
socket_laws = record {
  looks = stat_looks;
  answers = stat_answers;
  removes = remove_works;
  graceful = λ srv there. refl;
  closes = close_returns;
  close_keeps = λ h there gone. gone;
}

abbrev plugin_server : Server Bool
plugin_server = record {
  listen = record { scheme = "unix"; host = ""; path = "/csi.sock" };
  identity = record { driver_name = "storage"; driver_version = "1.0"; ready = true };
  controller = none;
  node = none;
}

abbrev health_server : HealthServer Bool
health_server = record {
  srv = record { handler = []; read_header_timeout = 15 };
  listen = record { scheme = "tcp"; host = "127.0.0.1:13071"; path = "" };
}

abbrev metrics_server : MetricsServer Bool
metrics_server = record {
  srv = record { handler = []; read_header_timeout = 15 };
  listen = record { scheme = "tcp"; host = "0.0.0.0:8090"; path = "" };
}

shutdown_leaves_no_socket_example :
    (w x : Bool) × (listen_syscalls signals
        (servers_of process plugin_server health_server metrics_server)
        true
      ≡ signals.close x)
    × IsCleaned socket_os "/csi.sock" (process.graceful_stop plugin_server true).1 w
    × (x ≡ (process.http.close metrics_server.srv (process.http.close health_server.srv w).1).1)
    × IsAbsent socket_os "/csi.sock" w
    × IsAbsent socket_os "/csi.sock" x
shutdown_leaves_no_socket_example =
    shutdown_leaves_no_socket process plugin_server socket_laws health_server metrics_server sigterm
      true true true true refl refl refl

-- No address can be read.
abbrev broken : Process Bool (Unit {0})
broken = record process {
  around = record (process.around) { parse_url = λ addr. err (plain "missing protocol scheme") };
}

abbrev started : Config Bool
started = record default_config { labels = "" ∷ [] }

abbrev terminal : Terminal Bool
terminal = record {
  parse_flags = λ c args. ok started;
  getenv = λ name. "";
  os_args = [];
  print = λ text s. s;
  log_error = λ l e s. s;
}

main_hides_failure_example : (x : Exit) × ((main terminal broken true).0 ≡ ok x) × (status_of x ≡ 0)
unfolding parse run_plugin
main_hides_failure_example =
    main_hides_failure terminal broken started true refl refl (λ e. absurd (cc e))

-- A call that brings its id along, on a host with a clock that stands still.
abbrev brought : Request
brought = record { publish_context = some (("ctx_correlation_id", "01ab") ∷ []); text = none }

abbrev quiet_log : Output Bool
quiet_log = record { level = 4; fields = []; write = λ entry s. s; now = λ s. 0 }

abbrev no_random : Random Bool
no_random = record { read_bytes = λ n. unavailable; new_uuid = unavailable }

abbrev idle : Served Bool
idle = record {
  world = true;
  clock = λ s. 0;
  durations = λ m. [];
  total = λ m c. 0;
  in_flight = λ m. 0;
}

abbrev told : Context → Action Bool String
told ctx = pure (context_correlation_id ctx)

abbrev probe : Action (Served Bool) String
probe =
    intercept no_random quiet_log brought (λ a. none) "/csi.v1.Node/NodePublishVolume" told
      (record { correlation_id = none; called_method = none })

intercept_lem_example :
    ((probe idle).0 ≡ ok "01ab")
    × IsConcluded quiet_log 0
        (told
          (record {
            correlation_id = some "01ab";
            called_method = some "/csi.v1.Node/NodePublishVolume";
          })
          true).0
        true
        (probe idle).1.world
    × ((probe idle).1.in_flight "NodePublishVolume" ≡ 0)
    × IsCounted
        (short_method "/csi.v1.Node/NodePublishVolume")
        (probe idle).0
        idle.total
        (probe idle).1.total
    × IsTimed
        (short_method "/csi.v1.Node/NodePublishVolume")
        0
        (probe idle).0
        idle.durations
        (probe idle).1.durations
unfolding assign_id context_correlation_id
intercept_lem_example =
    intercept_lem no_random quiet_log brought (λ a. none) "/csi.v1.Node/NodePublishVolume"
      "NodePublishVolume" "01ab" told (record { correlation_id = none; called_method = none }) idle
      true refl
