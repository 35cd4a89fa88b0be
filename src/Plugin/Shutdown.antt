-- ===== src/Plugin/Shutdown.antt =====
-- How the plugin stops (`Run` of internal/plugin/plugin.go with internal/server).
use upcloud_csi.Base.{◌≡◌, refl, sym, ap, subst, ◌∙◌, true, ◌⊎◌, inl, inr, String}
use upcloud_csi.Go.{Result, Error, ok, err, is_not_exist}
use upcloud_csi.Go.Os.{Os}
use upcloud_csi.Server.{clean_up_socket, stop_plugin_server}
use upcloud_csi.Server.Health.{HttpServer, HealthServer, stop_health_server}
use upcloud_csi.Server.Metrics.{MetricsServer, stop_metrics_server}
use upcloud_csi.Server.Group.{Signal, stop_signals, listen_syscalls}
use upcloud_csi.Server.Stopping.{
  IsQuiet, Returns, catch-IsQuiet, catch-state, stopped, AllQuiet, listen_syscalls_stops,
}
use upcloud_csi.Plugin.{Server}
use upcloud_csi.Plugin.Start.{
  Process, plugin_runnable, health_runnable, metrics_runnable, servers_of,
}

-- Nothing is at the path.
abbrev pub IsAbsent : {S : Type 0} → Os S → String → S → Type 0
IsAbsent os path s = (e : Error) × ((os.stat path s).0 ≡ err e) × (is_not_exist e ≡ true)

-- What is relied on: `stat` only looks, and fails only where nothing is; a removal works; the servers'
-- own stops return, and put nothing at the path of the socket.
pub record SocketLaws {S L : Type 0} (p : Process S L) (path : String) : Type 0 where
  pub looks : (s : S) → (p.around.system.os.stat path s).1 ≡ s
  pub answers :
      (s : S) → ((p.around.system.os.stat path s).0 ≡ ok tt) ⊎ IsAbsent p.around.system.os path s
  pub removes :
      (s : S)
      → (p.around.system.os.stat path s).0 ≡ ok tt
      → ((p.around.system.os.remove path s).0 ≡ ok tt)
        × IsAbsent p.around.system.os path (p.around.system.os.remove path s).1
  pub graceful : (srv : Server S) → IsQuiet (p.graceful_stop srv)
  pub closes : (h : HttpServer S) → Returns (p.http.close h)
  pub close_keeps :
      (h : HttpServer S) (s : S)
      → IsAbsent p.around.system.os path s
      → IsAbsent p.around.system.os path (p.http.close h s).1

-- What was at the path is removed, and nothing else happens.
abbrev pub IsCleaned : {S : Type 0} → Os S → String → S → S → Type 0
IsCleaned os path s s' =
    (((os.stat path s).0 ≡ ok tt) × (s' ≡ (os.remove path s).1)) ⊎ (IsAbsent os path s × (s' ≡ s))

abbrev os_of : {S L : Type 0} → Process S L → Os S
os_of p = p.around.system.os

module _ {S L : Type 0} (p : Process S L) (path : String) (laws : SocketLaws p path) where
  -- The socket is removed, or was not there.
  clean_up_socket-IsAbsent :
      (s : S)
      → ((clean_up_socket (os_of p) path s).0 ≡ ok tt)
        × IsAbsent (os_of p) path (clean_up_socket (os_of p) path s).1
        × IsCleaned (os_of p) path s (clean_up_socket (os_of p) path s).1
  unfolding clean_up_socket
  clean_up_socket-IsAbsent s = elim (laws.answers s) [
    | inl there ↦
        let found : (os_of p).stat path s ≡ (ok tt, s) = λ i. (there i, laws.looks s i) in
        let removed : (os_of p).remove path s ≡ (ok tt, ((os_of p).remove path s).1) =
          λ i. ((laws.removes s there).0 i, ((os_of p).remove path s).1) in
        let done : clean_up_socket (os_of p) path s ≡ (ok tt, ((os_of p).remove path s).1) =
          rw (found, removed) refl in
        subst
          (λ (z : Result (Unit {0}) × S).
            (z.0 ≡ ok tt) × IsAbsent (os_of p) path z.1 × IsCleaned (os_of p) path s z.1)
          (sym done) (refl, (laws.removes s there).1, inl (there, refl))
    | inr (e, absent, is) ↦
        let missing : (os_of p).stat path s ≡ (err e, s) = λ i. (absent i, laws.looks s i) in
        let done : clean_up_socket (os_of p) path s ≡ (ok tt, s) = rw (missing, is) refl in
        subst
          (λ (z : Result (Unit {0}) × S).
            (z.0 ≡ ok tt) × IsAbsent (os_of p) path z.1 × IsCleaned (os_of p) path s z.1)
          (sym done) (refl, (e, absent, is), inr ((e, absent, is), refl))
  ]

module _ {S L : Type 0} (p : Process S L) (srv : Server S)
    (laws : SocketLaws p srv.listen.path) where
  stop_plugin_server-IsAbsent :
      (s : S)
      → ((stop_plugin_server (os_of p) (p.graceful_stop srv) srv s).0 ≡ ok tt)
        × IsAbsent
            (os_of p)
            srv.listen.path
            (stop_plugin_server (os_of p) (p.graceful_stop srv) srv s).1
        × IsCleaned
            (os_of p)
            srv.listen.path
            (p.graceful_stop srv s).1
            (stop_plugin_server (os_of p) (p.graceful_stop srv) srv s).1
  unfolding stop_plugin_server
  stop_plugin_server-IsAbsent s =
      let u = (p.graceful_stop srv s).1 in
      let stops : p.graceful_stop srv s ≡ (ok tt, u) = λ i. (laws.graceful srv s i, u) in
      let (quiet, gone, cleaned') = clean_up_socket-IsAbsent p srv.listen.path laws u in
      let cleaned : clean_up_socket (os_of p) srv.listen.path u
          ≡ (ok tt, (clean_up_socket (os_of p) srv.listen.path u).1) =
        λ i. (quiet i, (clean_up_socket (os_of p) srv.listen.path u).1) in
      let done : stop_plugin_server (os_of p) (p.graceful_stop srv) srv s
          ≡ (ok tt, (clean_up_socket (os_of p) srv.listen.path u).1) =
        rw (stops, cleaned) refl in
      subst
        (λ (z : Result (Unit {0}) × S).
          (z.0 ≡ ok tt)
          × IsAbsent (os_of p) srv.listen.path z.1
          × IsCleaned (os_of p) srv.listen.path u z.1)
        (sym done) (refl, gone, cleaned')

  servers-AllQuiet : (h : HealthServer S) (m : MetricsServer S) → AllQuiet (servers_of p srv h m)
  unfolding plugin_runnable health_runnable metrics_runnable stop_health_server stop_metrics_server
  servers-AllQuiet h m = (
    λ sig s. (stop_plugin_server-IsAbsent s).0,
    (
      λ sig. catch-IsQuiet (p.http.close h.srv) (laws.closes h.srv),
      (λ sig. catch-IsQuiet (p.http.close m.srv) (laws.closes m.srv), tt),
    ),
  )

  -- Where `stat` and the removal of the socket work, and the stops of the servers return and put no
  -- socket there: after a signal, the gRPC server is stopped gracefully; then its socket is removed, if
  -- one is left; then the HTTP servers for health checks and for metrics are closed, in this order and whatever
  -- errors that gives. Nothing else is done, the channel of the signals is closed last, and nothing is
  -- at the path of the socket from its removal to the end.
  pub shutdown_leaves_no_socket :
      (h : HealthServer S) (m : MetricsServer S) (sig : Signal) (s t u v : S)
      → p.signals.notify stop_signals s ≡ (ok tt, t)
      → p.signals.receive t ≡ (ok sig, u)
      → p.signals.ignore u ≡ (ok tt, v)
      → (w x : S) × (listen_syscalls p.signals (servers_of p srv h m) s ≡ p.signals.close x)
        × IsCleaned (os_of p) srv.listen.path (p.graceful_stop srv v).1 w
        × (x ≡ (p.http.close m.srv (p.http.close h.srv w).1).1)
        × IsAbsent (os_of p) srv.listen.path w
        × IsAbsent (os_of p) srv.listen.path x
  unfolding plugin_runnable health_runnable metrics_runnable stop_health_server stop_metrics_server
  shutdown_leaves_no_socket h m sig s t u v n r i =
      let w = (stop_plugin_server (os_of p) (p.graceful_stop srv) srv v).1 in
      let last : stopped sig (servers_of p srv h m) v
          ≡ (p.http.close m.srv (p.http.close h.srv w).1).1 =
        catch-state (p.http.close m.srv) _
        ∙ ap (λ z. (p.http.close m.srv z).1) (catch-state (p.http.close h.srv) w) in
      let (_, gone, cleaned) = stop_plugin_server-IsAbsent v in
      (
        w,
        stopped sig (servers_of p srv h m) v,
        listen_syscalls_stops p.signals (servers_of p srv h m) sig s t u v (servers-AllQuiet h m) n
            r i,
        cleaned,
        last,
        gone,
        subst (IsAbsent (os_of p) srv.listen.path) (sym last)
            (laws.close_keeps m.srv (p.http.close h.srv w).1 (laws.close_keeps h.srv w gone)),
      )
