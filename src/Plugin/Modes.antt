-- ===== src/Plugin/Modes.antt =====
-- What a plugin serves in each mode (internal/plugin/plugin.go).
use upcloud_csi.Base.{
  ◌≡◌, pos, sym, ap, ◌∙◌, subst, arith, ℕ, ℤ, Bool, true, false, if◌then◌else◌, Bool-cases, ◌⊎◌,
  inl, inr, Option, none, some, List, String, str_eq,
}
use upcloud_csi.Go.{Action, ◌>>◌, Result, ok, err, panic, wrap, pure, lift, map_error, ◌>>=◌}
use upcloud_csi.Go.Inversion.{bind-eq-ok}
use upcloud_csi.Service.{Service}
use upcloud_csi.Service.Metrics.{Instrumented, instrumented_service}
use upcloud_csi.Service.Client.{UpcloudService}
use upcloud_csi.Service.Upcloud.{upcloud_service}
use upcloud_csi.Controller.{Controller, Library}
use upcloud_csi.Controller.Requests.{new_controller}
use upcloud_csi.Filesystem.{Filesystem}
use upcloud_csi.Go.Os.{Os}
use upcloud_csi.Identity.{Identity}
use upcloud_csi.Node.{Node, new_node}
use upcloud_csi.Node.Zone.{resolve_zone}
use upcloud_csi.Server.Address.{Url}
use upcloud_csi.Server.Metrics.{init_metrics, upcloud_metrics}
use upcloud_csi.Server.{PluginServer, new_plugin_server_at, serve_at}
use upcloud_csi.Plugin.Settings.{
  Config, max_volumes_per_node, driver_mode_controller, driver_mode_node, driver_mode_monolith,
}
use upcloud_csi.Plugin.{
  Surroundings, Server, identity_of, service_of, controller_of, node_of, serve,
  new_controller_plugin_server, new_node_plugin_server, new_monolith_plugin_server,
  resolve_config_zone, filesystem_of, serve_mode, new_plugin_server, metadata_region_endpoint,
}

new_controller-zone :
    {S : Type 0} (svc : Service S) (zone host : String) (m : ℕ) (labels : List String)
    (library : Library) (c : Controller S)
    → new_controller svc zone host m labels library ≡ ok c
    → (c.zone ≡ zone) × (str_eq zone "" ≡ false)
unfolding new_controller
new_controller-zone svc zone host m labels library c e = elim (Bool-cases (str_eq zone "")) [
  | inl none' ↦ absurd (cc (rw none' at e))
  | inr some' ↦ (ground (arith, some', e), some')
]

new_node-zone :
    {S : Type 0} (name zone : String) (m : ℤ) (fs : Filesystem S) (os : Os S) (uuid : String → Bool)
    (n : Node S)
    → new_node name zone m fs os uuid ≡ ok n
    → (n.zone ≡ zone) × (str_eq zone "" ≡ false)
unfolding new_node
new_node-zone name zone m fs os uuid n e = elim (Bool-cases (str_eq name "")) [
  | inl none' ↦ absurd (cc (rw none' at e))
  | inr named ↦ elim (Bool-cases (str_eq zone "")) [
    | inl none' ↦ absurd (cc (rw (named, none') at e))
    | inr some' ↦ (ground (arith, named, some', e), some')
  ]
]

served :
    {C N : Type 0} (c : Option C) (n : Option N) (i : Identity) (r : Result Url)
    (srv : PluginServer C N)
    → serve_at c n i r ≡ ok srv
    → (srv.controller ≡ c) × (srv.node ≡ n)
served c n i (err x) srv e = absurd (cc e)
served c n i panic srv e = absurd (cc e)
served c n i (ok listen) srv e = elim (Bool-cases (str_eq listen.scheme "unix")) [
  | inl unix ↦ (ground (arith, unix, e), ground (arith, unix, e))
  | inr other ↦ absurd (cc (rw other at e))
]

-- A controller, or a node, of the zone.
abbrev pub HasController : {S : Type 0} → String → Server S → Type 0
HasController {S = S} zone srv =
    (k : Controller (Instrumented S)) × (srv.controller ≡ some k) × (k.zone ≡ zone)

abbrev pub HasNode : {S : Type 0} → String → Server S → Type 0
HasNode {S = S} zone srv = (n : Node S) × (srv.node ≡ some n) × (n.zone ≡ zone)

-- What the server has in the mode, and what it does not have.
abbrev pub IsServing : {S : Type 0} → String → String → Server S → Type 0
IsServing mode zone srv =
    ((str_eq mode driver_mode_controller ≡ true) × HasController zone srv × (srv.node ≡ none))
    ⊎ ((str_eq mode driver_mode_node ≡ true) × HasNode zone srv × (srv.controller ≡ none))
    ⊎ ((str_eq mode driver_mode_monolith ≡ true) × HasController zone srv × HasNode zone srv)

module _ {S : Type 0} (around : Surroundings S) where
  controller_of-zone :
      (c : Config S) (svc : UpcloudService S) (k : Controller (Instrumented S))
      → controller_of around c svc ≡ ok k
      → (k.zone ≡ c.zone) × (str_eq c.zone "" ≡ false)
  unfolding controller_of
  controller_of-zone c svc k e =
      new_controller-zone (instrumented_service (upcloud_service svc)) c.zone c.node_host
        max_volumes_per_node c.labels around.library k e

  node_of-zone :
      (c : Config S) (fs : Filesystem S) (n : Node S)
      → node_of around c fs ≡ ok n
      → (n.zone ≡ c.zone) × (str_eq c.zone "" ≡ false)
  unfolding node_of
  node_of-zone c fs n e =
      new_node-zone c.node_host c.zone (pos max_volumes_per_node) fs around.system.os
        around.library.parses_uuid n e

  serve-parts :
      (c : Config S) (k : Option (Controller (Instrumented S))) (n : Option (Node S))
      (srv : Server S) (s s' : S)
      → serve around c k n s ≡ (ok srv, s')
      → (srv.controller ≡ k) × (srv.node ≡ n)
  unfolding serve new_plugin_server_at
  serve-parts c k n srv s s' e =
      let made = serve_at k n (identity_of around c) (around.parse_url c.plugin_server_address) in
      let (srv', t, e1, r1) =
        bind-eq-ok (lift made) (λ x. init_metrics around.registry >> pure x) s s' srv e in
      let (_, t', _, r2) = bind-eq-ok (init_metrics around.registry) (λ _. pure srv') t s' srv r1 in
      served k n (identity_of around c) (around.parse_url c.plugin_server_address) srv
        (ap (λ z. z.0) e1 ∙ ap (λ z. z.0) r2)

  abbrev with_controller : Config S → UpcloudService S → Action S (Server S)
  with_controller c svc = lift (controller_of around c svc) >>= λ k. serve around c (some k) none

  controller_served :
      (c : Config S) (srv : Server S) (s s' : S)
      → new_controller_plugin_server around c s ≡ (ok srv, s')
      → (str_eq c.zone "" ≡ false) × HasController c.zone srv × (srv.node ≡ none)
  unfolding new_controller_plugin_server
  controller_served c srv s s' e =
      let (svc, t, e1, r1) =
        bind-eq-ok (lift (service_of around c))
          (λ svc. upcloud_metrics around.registry >> with_controller c svc) s s' srv e in
      let (_, u, _, r0) =
        bind-eq-ok (upcloud_metrics around.registry) (λ _. with_controller c svc) t s' srv r1 in
      let (k, t', e2, r2) =
        bind-eq-ok (lift (controller_of around c svc)) (λ k. serve around c (some k) none) u s' srv
          r0 in
      let (zone, named) = controller_of-zone c svc k (ap (λ z. z.0) e2) in
      let (here, none') = serve-parts c (some k) none srv t' s' r2 in
      (named, (k, here, zone), none')

  node_served :
      (c : Config S) (fs : Filesystem S) (srv : Server S) (s s' : S)
      → new_node_plugin_server around c fs s ≡ (ok srv, s')
      → (str_eq c.zone "" ≡ false) × HasNode c.zone srv × (srv.controller ≡ none)
  unfolding new_node_plugin_server
  node_served c fs srv s s' e =
      let (n, t, e1, r1) =
        bind-eq-ok (lift (node_of around c fs)) (λ n. serve around c none (some n)) s s' srv e in
      let (zone, named) = node_of-zone c fs n (ap (λ z. z.0) e1) in
      let (none', here) = serve-parts c none (some n) srv t s' r1 in (named, (n, here, zone), none')

  abbrev with_node : Config S → Filesystem S → Controller (Instrumented S) → Action S (Server S)
  with_node c fs k = lift (node_of around c fs) >>= λ n. serve around c (some k) (some n)

  abbrev with_both : Config S → Filesystem S → UpcloudService S → Action S (Server S)
  with_both c fs svc = lift (controller_of around c svc) >>= with_node c fs

  monolith_served :
      (c : Config S) (fs : Filesystem S) (srv : Server S) (s s' : S)
      → new_monolith_plugin_server around c fs s ≡ (ok srv, s')
      → (str_eq c.zone "" ≡ false) × HasController c.zone srv × HasNode c.zone srv
  unfolding new_monolith_plugin_server
  monolith_served c fs srv s s' e =
      let (svc, t, e1, r1) =
        bind-eq-ok (lift (service_of around c))
          (λ svc. upcloud_metrics around.registry >> with_both c fs svc) s s' srv e in
      let (_, u, _, r0) =
        bind-eq-ok (upcloud_metrics around.registry) (λ _. with_both c fs svc) t s' srv r1 in
      let (k, t', e2, r2) =
        bind-eq-ok (lift (controller_of around c svc)) (with_node c fs) u s' srv r0 in
      let (n, t'', e3, r3) =
        bind-eq-ok (lift (node_of around c fs)) (λ n. serve around c (some k) (some n)) t' s' srv
          r2 in
      let (zone, named) = controller_of-zone c svc k (ap (λ z. z.0) e2) in
      let (zone', _) = node_of-zone c fs n (ap (λ z. z.0) e3) in
      let (here, there) = serve-parts c (some k) (some n) srv t'' s' r3 in
      (named, (k, here, zone), (n, there, zone'))

  mode_served :
      (c : Config S) (fs : Filesystem S) (srv : Server S) (s s' : S)
      → serve_mode around c fs s ≡ (ok srv, s')
      → (str_eq c.zone "" ≡ false) × IsServing c.mode c.zone srv
  unfolding serve_mode
  mode_served c fs srv s s' e = elim (Bool-cases (str_eq c.mode driver_mode_controller)) [
    | inl is ↦
        let (named, has, none') = controller_served c srv s s' (rw is at e) in
        (named, inl (is, has, none'))
    | inr no1 ↦ elim (Bool-cases (str_eq c.mode driver_mode_node)) [
      | inl is ↦
          let (named, has, none') = node_served c fs srv s s' (rw (no1, is) at e) in
          (named, inr (inl (is, has, none')))
      | inr no2 ↦ elim (Bool-cases (str_eq c.mode driver_mode_monolith)) [
        | inl is ↦
            let (named, k, n) = monolith_served c fs srv s s' (rw (no1, no2, is) at e) in
            (named, inr (inr (is, k, n)))
        | inr no3 ↦ absurd (cc (rw (no1, no2, no3) at e))
      ]
    ]
  ]

  zone_resolved :
      (c c' : Config S) (endpoint : String) (s s' : S)
      → resolve_config_zone around c endpoint s ≡ (ok c', s')
      → (c'.mode ≡ c.mode) × ((if str_eq c.zone "" then c'.zone else c.zone) ≡ c'.zone)
  unfolding resolve_config_zone
  zone_resolved c c' endpoint s s' e = elim (Bool-cases (str_eq c.zone "")) [
    | inr given ↦
        let same : c ≡ c' = ground (arith, rw given at e) in
        (sym (ap (λ z. z.mode) same), rw given (ap (λ z. z.zone) same))
    | inl none' ↦
        let (zone, t, e1, r1) =
          bind-eq-ok (map_error wrap (resolve_zone around.http_get endpoint))
            (λ z. pure (record c { zone = z })) s s' c' (rw none' at e) in
        let same : record c { zone = zone } ≡ c' = ground (arith, r1) in
        (sym (ap (λ z. z.mode) same), rw none')
  ]

  -- A plugin server that was made has the services of its mode: the controller and no node in the
  -- mode "controller", the node and no controller in "node", both in "monolith"; there is no fourth mode. They
  -- are all of one zone, which is not empty, and is the configured one where there is one.
  pub new_plugin_server_modes :
      (c : Config S) (srv : Server S) (s s' : S)
      → new_plugin_server around c s ≡ (ok srv, s')
      → (zone : String) × (str_eq zone "" ≡ false)
        × ((if str_eq c.zone "" then zone else c.zone) ≡ zone)
        × IsServing c.mode zone srv
  unfolding new_plugin_server
  new_plugin_server_modes c srv s s' e =
      let (fs, t, _, r1) =
        bind-eq-ok (filesystem_of around c)
          (λ fs.
            resolve_config_zone around c metadata_region_endpoint >>= λ c'. serve_mode around c' fs)
          s s' srv e in
      let (c', t', e2, r2) =
        bind-eq-ok (resolve_config_zone around c metadata_region_endpoint)
          (λ c'. serve_mode around c' fs) t s' srv r1 in
      let (mode, zone) = zone_resolved c c' metadata_region_endpoint t t' e2 in
      let (named, is) = mode_served c' fs srv t' s' r2 in
      (c'.zone, named, zone, subst (λ m. IsServing m c'.zone srv) mode is)
