-- ===== src/Node/Lifecycle.antt =====
-- Histories of calls of the node server (internal/node/node.go), against the set of mounted paths.
use upcloud_csi.Base.{
  ◌≡◌, refl, sym, ap, ◌∙◌, Bool, true, false, List, [], ◌∷◌, ◌++◌, String, str_eq, if◌then◌else◌,
}
use upcloud_csi.Go.{Action, Result, ok, err, panic, for_each, map_error, lift, ◌>>◌}
use upcloud_csi.Go.Inversion.{bind-eq-ok}
use upcloud_csi.Csi.{AccessType, mount, unset, block}
use upcloud_csi.Csi.NodeMessages.{
  StageRequest, NodePublishRequest, NodeUnpublishRequest, UnstageRequest,
}
use upcloud_csi.Node.{
  Node, node_stage_volume, node_publish_volume, node_unpublish_volume, node_unstage_volume,
  stage_capability, publish_access, access_of, mount_unless_mounted,
  validate_node_publish_volume_request, release_path, named, fs_type_or_default, bind_options,
  internal_error,
}
use upcloud_csi.Node.Frame.{
  set, HostFrame, Sets, Sets-of, release_path-Spares, publish_access-Spares,
}
use upcloud_csi.Node.Staged.{is_raw, capability_staged}
use upcloud_csi.Node.Targets.{
  HostMounts, target_mounted, release_path-IsReleased, named-full, validated,
}

-- The calls that mount and release paths.
pub data Call : Type 0 where
  stages : StageRequest → Call
  publishes : NodePublishRequest → Call
  unpublishes : NodeUnpublishRequest → Call
  unstages : UnstageRequest → Call

abbrev pub call : {S : Type 0} → Node S → Call → Action S (Unit {0})
call n (stages req) = node_stage_volume n req
call n (publishes req) = node_publish_volume n req
call n (unpublishes req) = node_unpublish_volume n req
call n (unstages req) = node_unstage_volume n req

-- The promise of a call that succeeds, on the set of mounted paths.
abbrev pub effect : Call → (String → Bool) → String → Bool
effect (stages req) m q =
    if is_raw req req.volume_capability then m q else set req.staging_target_path true m q
effect (publishes req) m q = set req.target_path true m q
effect (unpublishes req) m q = set req.target_path false m q
effect (unstages req) m q = set req.staging_target_path false m q

abbrev pub replay : List Call → (String → Bool) → String → Bool
replay [] m = m
replay (c ∷ cs) m = replay cs (effect c m)

-- The promises depend on the set only.
effect-cong :
    (c : Call) (m m' : String → Bool)
    → ((q : String) → m q ≡ m' q)
    → (q : String) → effect c m q ≡ effect c m' q
effect-cong (stages req) m m' h q =
    ap
      (λ b.
        if is_raw req req.volume_capability
        then b
        else (if str_eq q req.staging_target_path then true else b))
      (h q)
effect-cong (publishes req) m m' h q = ap (λ b. if str_eq q req.target_path then true else b) (h q)
effect-cong (unpublishes req) m m' h q =
    ap (λ b. if str_eq q req.target_path then false else b) (h q)
effect-cong (unstages req) m m' h q =
    ap (λ b. if str_eq q req.staging_target_path then false else b) (h q)

replay-cong :
    (cs : List Call) (m m' : String → Bool)
    → ((q : String) → m q ≡ m' q)
    → (q : String) → replay cs m q ≡ replay cs m' q
replay-cong [] m m' h q = h q
replay-cong (c ∷ cs) m m' h q = replay-cong cs (effect c m) (effect c m') (effect-cong c m m' h) q

module _ {S : Type 0} where
  -- A call that begins with a check.
  checked :
      (r : Result (Unit {0})) (m : Action S (Unit {0})) (s s' : S)
      → (lift r >> m) s ≡ (ok tt, s')
      → (r ≡ ok tt) × (m s ≡ (ok tt, s'))
  checked (ok tt) m s s' e = (refl, e)
  checked (err c) m s s' e = absurd (cc e)
  checked panic m s s' e = absurd (cc e)

module _ {S : Type 0} (n : Node S) (mounted : S → String → Bool) (host : HostMounts n mounted)
    (frame : HostFrame n mounted) where
  access_published :
      (req : NodePublishRequest) (a : AccessType) (s s' : S)
      → str_eq req.target_path "" ≡ false
      → publish_access n req a s ≡ (ok tt, s')
      → mounted s' req.target_path ≡ true
  unfolding publish_access
  access_published req unset s s' full e = absurd (cc e)
  access_published req (mount mnt) s s' full e =
      target_mounted n mounted host req.staging_target_path req.target_path
        (fs_type_or_default mnt.fs_type) (bind_options n req.readonly ++ mnt.mount_flags) s s' full
        e
  access_published req block s s' full e =
      let (source, t, _, e2) =
        bind-eq-ok (map_error internal_error (n.fs.get_device_by_id req.volume_id))
          (λ d. mount_unless_mounted n d req.target_path "" (bind_options n req.readonly)) s s' tt
          e in
      target_mounted n mounted host source req.target_path "" (bind_options n req.readonly) t s'
        full e2

  path_released :
      (path : String) (s s' : S)
      → str_eq path "" ≡ false
      → release_path n path s ≡ (ok tt, s')
      → Sets n mounted host frame path false s s'
  path_released path s s' full e =
      Sets-of n mounted host frame path false (release_path n path) s s' e
        (release_path-IsReleased n mounted host path s s' full e).0
        (release_path-Spares n mounted host frame path full)

  -- A call that succeeds does to the mounted paths what it promises.
  call-effect :
      (c : Call) (s s' : S)
      → call n c s ≡ (ok tt, s')
      → (q : String) → mounted s' q ≡ effect c (mounted s) q
  unfolding node_stage_volume node_publish_volume node_unpublish_volume node_unstage_volume
  call-effect (stages req) s s' e =
      let (valid, rest) =
        checked (named req.volume_id req.staging_target_path)
          (stage_capability n req req.volume_capability) s s' e in
      capability_staged n mounted host frame req req.volume_capability s s'
        (named-full req.volume_id req.staging_target_path valid) rest
  call-effect (publishes req) s s' e =
      let a = access_of n req.volume_capability in
      let (valid, rest) =
        checked (validate_node_publish_volume_request req) (publish_access n req a) s s' e in
      let full = validated req valid in
      Sets-of n mounted host frame req.target_path true (publish_access n req a) s s' rest
        (access_published req a s s' full rest)
        (publish_access-Spares n mounted host frame req a full)
  call-effect (unpublishes req) s s' e =
      let (valid, rest) =
        checked (named req.volume_id req.target_path) (release_path n req.target_path) s s' e in
      path_released req.target_path s s' (named-full req.volume_id req.target_path valid) rest
  call-effect (unstages req) s s' e =
      let (valid, rest) =
        checked (named req.volume_id req.staging_target_path)
          (release_path n req.staging_target_path) s s' e in
      path_released req.staging_target_path s s'
        (named-full req.volume_id req.staging_target_path valid) rest

  -- On a host whose mounts behave, any sequence of stagings, publications and their reversals that
  -- all succeed, for any volumes and paths, in any order, leaves mounted exactly the paths that the
  -- sequence says: each path as the last call for it left it, and all others as they were.
  pub calls_refine :
      (cs : List Call) (s s' : S)
      → for_each (call n) cs s ≡ (ok tt, s')
      → (q : String) → mounted s' q ≡ replay cs (mounted s) q
  calls_refine [] s s' e q = sym (ap (λ (z : _ × S). mounted z.1 q) e)
  calls_refine (c ∷ cs) s s' e q =
      let (_, t, e1, e2) = bind-eq-ok (call n c) (λ _. for_each (call n) cs) s s' tt e in
      calls_refine cs t s' e2 q
      ∙ replay-cong cs (mounted t) (effect c (mounted s)) (call-effect c s t e1) q
