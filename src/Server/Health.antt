-- ===== src/Server/Health.antt =====
-- The HTTP server for health checks (internal/server/health.go). net/http and the listener are
-- parameters; what is logged is left out.
use upcloud_csi.Base.{◌*◌, ℕ, List, [], ◌∷◌, String}
use upcloud_csi.Go.{Action, Result, ok, err, panic, wrap, pure, catch, map_error, ◌>>=◌}
use upcloud_csi.Server.Address.{Url}

-- A nanosecond is one of Go's `time.Duration`.
abbrev pub second : ℕ
second = 1000000000

abbrev pub status_ok : ℕ
status_ok = 200

-- What a handler has of the response: `WriteHeader`. The request is only logged.
abbrev pub Handler : Type 0 → Type 0
Handler S = (ℕ → Action S (Unit {0})) → Action S (Unit {0})

-- `http.Server`, with the paths that its mux handles.
pub record HttpServer (S : Type 0) : Type 0 where
  pub handler : List (String × Handler S)
  pub read_header_timeout : ℕ

-- The listener, and `Serve` and `Close` of an `http.Server`.
pub record Http (S L : Type 0) : Type 0 where
  pub listen_at : String → String → Action S L
  pub serve : HttpServer S → L → Action S (Unit {0})
  pub close : HttpServer S → Action S (Unit {0})

pub record HealthServer (S : Type 0) : Type 0 where
  pub srv : HttpServer S
  pub listen : Url

abbrev health_timeout : ℕ
health_timeout = 15

unfoldable pub health_handler_fn : {S : Type 0} → Handler S
health_handler_fn write_header = write_header status_ok

abbrev pub health_at : {S : Type 0} → Result Url → Result (HealthServer S)
health_at (err e) = err e
health_at panic = panic
health_at (ok listen) = ok (record {
  srv = record {
    handler = ("/health", health_handler_fn) ∷ [];
    read_header_timeout = health_timeout * second;
  };
  listen = listen;
})

unfoldable pub new_health_server :
    {S : Type 0} → (String → Result Url) → String → Result (HealthServer S)
new_health_server parse_url addr = health_at (parse_url addr)

module _ {S L : Type 0} (http : Http S L) where
  unfoldable pub run_health_server : HealthServer S → Action S (Unit {0})
  run_health_server server = do
    listener ← map_error wrap (http.listen_at server.listen.scheme server.listen.host)
    http.serve server.srv listener

  -- An error of `Close` is logged only.
  unfoldable pub stop_health_server : HealthServer S → Action S (Unit {0})
  stop_health_server server = catch (http.close server.srv) (λ e. pure tt)
