-- ===== src/Server.antt =====
-- The gRPC server of the plugin (internal/server/plugin.go). `url.Parse`, gRPC and the listener are
-- third-party code or of the operating system, and parameters.
pub mod Address
pub mod Interceptor
pub mod Health
pub mod Metrics
pub mod Group
pub mod Once
pub mod Stopping
use upcloud_csi.Base.{
  true, not, Option, none, some, List, [], ◌∷◌, ◌++◌, String, str_eq, if◌then◌else◌,
}
use upcloud_csi.Go.{
  Action, Result, ok, err, panic, Error, wrap, plain, is_not_exist, pure, raise, catch, map_error,
  lift, ◌>>=◌, ◌>>◌,
}
use upcloud_csi.Go.Os.{Os}
use upcloud_csi.Identity.{Identity}
use Address.{Url}
use Metrics.{Registry, init_metrics}

-- `csi.v1.Identity`, `csi.v1.Controller`, `csi.v1.Node`
pub data ServiceName : Type 0 where
  identity_server controller_server node_server : ServiceName

-- The server, over the types of the controller and of the node that it may have.
pub record PluginServer (C N : Type 0) : Type 0 where
  pub listen : Url
  pub identity : Identity
  pub controller : Option C
  pub node : Option N

-- What `url.Parse` gives decides; the end of the process (`log.Fatalf`) is a panic of the model.
abbrev pub serve_at :
    {C N : Type 0} → Option C → Option N → Identity → Result Url → Result (PluginServer C N)
serve_at controller csi_node identity (err e) = err e
serve_at controller csi_node identity panic = panic
serve_at controller csi_node identity (ok listen) =
    if str_eq listen.scheme "unix"
    then ok
        (record { listen = listen; identity = identity; controller = controller; node = csi_node })
    else panic

-- The interceptors are made with the server, and with them the metrics.
unfoldable pub new_plugin_server_at :
    {S C N : Type 0}
    → Registry S
    → (String → Result Url)
    → String
    → Option C
    → Option N
    → Option Identity
    → Action S (PluginServer C N)
unfolding init_metrics
new_plugin_server_at registry parse_url addr controller csi_node none =
    raise (plain "identity service is not defined")
new_plugin_server_at registry parse_url addr controller csi_node (some identity) = do
  srv ← lift (serve_at controller csi_node identity (parse_url addr))
  init_metrics registry
  pure srv

-- The names of the services that are registered.
unfoldable pub get_service_info : {C N : Type 0} → PluginServer C N → List ServiceName
get_service_info srv =
    identity_server
    ∷ (elim srv.controller [ none ↦ [] | some c ↦ controller_server ∷ [] ]
        ++ elim srv.node [ none ↦ [] | some n ↦ node_server ∷ [] ])

module _ {S : Type 0} (os : Os S) where
  unfoldable pub clean_up_socket : String → Action S (Unit {0})
  clean_up_socket path = do
    there ← catch (os.stat path >> pure true) (λ e. pure (not (is_not_exist e)))
    if there
        then catch (os.remove path) (λ e. if is_not_exist e then pure tt else raise (wrap e))
        else pure tt

  -- Scheme and path of the listener, and `srv.Serve`.
  unfoldable pub run_plugin_server :
      {C N L : Type 0}
      → (String → String → Action S L)
      → (L → Action S (Unit {0}))
      → PluginServer C N
      → Action S (Unit {0})
  unfolding clean_up_socket
  run_plugin_server listen_at serve srv = do
    clean_up_socket srv.listen.path
    listener ← map_error wrap (listen_at srv.listen.scheme srv.listen.path)
    serve listener

  -- `GracefulStop`, then the socket; an error of that is logged only.
  unfoldable pub stop_plugin_server :
      {C N : Type 0} → Action S (Unit {0}) → PluginServer C N → Action S (Unit {0})
  unfolding clean_up_socket
  stop_plugin_server graceful_stop srv = do
    graceful_stop
    catch (clean_up_socket srv.listen.path) (λ e. pure tt)
