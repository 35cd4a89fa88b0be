-- ===== src/Server/Group.antt =====
-- The servers of the process, run together and stopped by a signal (internal/server/server.go). The
-- error group that runs them is third-party code, and signals are of the operating system: both are
-- parameters.
use upcloud_csi.Base.{List, [], ◌∷◌, map}
use upcloud_csi.Go.{Action, for_each, ◌>>=◌, ◌>>◌}

pub data Signal : Type 0 where
  sighup sigint sigterm sigquit : Signal

-- The interface `Server`.
pub record Server (S : Type 0) : Type 0 where
  pub run : Action S (Unit {0})
  pub stop : Signal → Action S (Unit {0})

-- `signal.Notify`, the read of the channel, `signal.Stop` and `close`.
pub record Signals (S : Type 0) : Type 0 where
  pub notify : List Signal → Action S (Unit {0})
  pub receive : Action S Signal
  pub ignore : Action S (Unit {0})
  pub close : Action S (Unit {0})

abbrev pub stop_signals : List Signal
stop_signals = sighup ∷ sigint ∷ sigterm ∷ sigquit ∷ []

module _ {S : Type 0} (signals : Signals S) where
  unfoldable pub listen_syscalls : List (Server S) → Action S (Unit {0})
  listen_syscalls servers = do
    signals.notify stop_signals
    sig ← signals.receive
    signals.ignore
    for_each (λ server. server.stop sig) servers
    signals.close

  -- The group runs the functions it is given beside each other, and the listener beside them; it
  -- returns when all of the functions have.
  unfoldable pub run_servers :
      (List (Action S (Unit {0})) → Action S (Unit {0}) → Action S (Unit {0}))
      → List (Server S)
      → Action S (Unit {0})
  unfolding listen_syscalls
  run_servers group servers = group (map (λ server. server.run) servers) (listen_syscalls servers)
