-- ===== src/Server/Stopping.antt =====
-- What a signal does to the servers of the process (internal/server/server.go, and the methods `Stop`
-- of internal/server).
use upcloud_csi.Base.{◌≡◌, refl, List, [], ◌∷◌, ◌≢◌}
use upcloud_csi.Go.{Action, Result, ok, err, panic, pure, catch, for_each}
use upcloud_csi.Server.Group.{Signal, stop_signals, Server, Signals, listen_syscalls}

-- A call that always returns, and has no error to return.
abbrev pub IsQuiet : {S : Type 0} → Action S (Unit {0}) → Type 0
IsQuiet {S = S} m = (s : S) → (m s).0 ≡ ok tt

-- A call that always returns, be it with an error.
abbrev pub Returns : {S : Type 0} → Action S (Unit {0}) → Type 0
Returns {S = S} m = (s : S) → (m s).0 ≢ panic

module _ {S : Type 0} where
  quieted :
      (r : Result (Unit {0})) (s : S) → r ≢ panic → (catch (λ t. (r, t)) (λ e. pure tt) s).0 ≡ ok tt
  quieted (ok tt) s h = refl
  quieted (err e) s h = refl
  quieted panic s h = absurd (h refl)

  quieted_state : (r : Result (Unit {0})) (s : S) → (catch (λ t. (r, t)) (λ e. pure tt) s).1 ≡ s
  quieted_state (ok tt) s = refl
  quieted_state (err e) s = refl
  quieted_state panic s = refl

  pub catch-state : (m : Action S (Unit {0})) (s : S) → (catch m (λ e. pure tt) s).1 ≡ (m s).1
  catch-state m s = quieted_state (m s).0 (m s).1

  pub catch-IsQuiet : (m : Action S (Unit {0})) → Returns m → IsQuiet (catch m (λ e. pure tt))
  catch-IsQuiet m h s = quieted (m s).0 (m s).1 (h s)

-- The state after each of the servers was stopped in turn, whatever their stops did.
abbrev pub stopped : {S : Type 0} → Signal → List (Server S) → S → S
stopped sig [] s = s
stopped sig (server ∷ servers) s = stopped sig servers (server.stop sig s).1

-- Servers whose `Stop` always returns.
abbrev pub AllQuiet : {S : Type 0} → List (Server S) → Type 0
AllQuiet [] = Unit {0}
AllQuiet (server ∷ servers) = ((sig : Signal) → IsQuiet (server.stop sig)) × AllQuiet servers

module _ {S : Type 0} where
  for_each-stopped :
      (sig : Signal) (servers : List (Server S)) (s : S)
      → AllQuiet servers
      → for_each (λ (server : Server S). server.stop sig) servers s ≡ (ok tt, stopped sig servers s)
  for_each-stopped sig [] s h = refl
  for_each-stopped sig (server ∷ servers) s (quiet, rest) =
      rw (quiet sig s) (for_each-stopped sig servers (server.stop sig s).1 rest)

  -- After a signal every server is stopped, in the order of the list.
  pub listen_syscalls_stops :
      (signals : Signals S) (servers : List (Server S)) (sig : Signal) (s t u v : S)
      → AllQuiet servers
      → signals.notify stop_signals s ≡ (ok tt, t)
      → signals.receive t ≡ (ok sig, u)
      → signals.ignore u ≡ (ok tt, v)
      → listen_syscalls signals servers s ≡ signals.close (stopped sig servers v)
  unfolding listen_syscalls
  listen_syscalls_stops signals servers sig s t u v quiet n r i =
      rw (n, r, i, for_each-stopped sig servers v quiet) refl
