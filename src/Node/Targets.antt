-- ===== src/Node/Targets.antt =====
-- The paths that the node server mounts and releases (internal/node/node.go), on a host whose mounts
-- behave.
use upcloud_csi.Base.{
  str_eq, ◌≡◌, sym, ap, subst, ◌∙◌, arith, Bool, true, false, Option, none, some, Bool-cases, inl,
  inr, List, ◌++◌, String,
}
use upcloud_csi.Go.{ok, err, Error, is_not_exist, map_error, lift, attempt}
use upcloud_csi.Go.Inversion.{bind-eq-ok, map_error-eq-ok, IsAttempt, attempt-eq-ok}
use upcloud_csi.Csi.{AccessType, mount, unset, block}
use upcloud_csi.Csi.NodeMessages.{NodePublishRequest, NodeUnpublishRequest, UnstageRequest}
use upcloud_csi.Node.{
  Node, node_publish_volume, node_unpublish_volume, node_unstage_volume, mount_unless_mounted,
  publish_access, access_of, validate_node_publish_volume_request, release_path, remove_path,
  remove_found, named, fs_type_or_default, bind_options, internal_error,
}

-- What mount, umount, findmnt, stat and unlink promise: the two questions only read; a path that was
-- mounted is found mounted, one that was unmounted is not; a path that was removed is not there
-- any more, and removing it mounts nothing.
pub record HostMounts {S : Type 0} (n : Node S) (mounted : S → String → Bool) : Type 0 where
  pub asks :
      (path : String) (s : S)
      → str_eq path "" ≡ false
      → n.fs.is_mounted path s ≡ (ok (mounted s path), s)
  pub mounts :
      (source path fs_type : String) (options : List String) (s s' : S)
      → n.fs.mount source path fs_type options s ≡ (ok tt, s')
      → mounted s' path ≡ true
  pub unmounts :
      (path : String) (s s' : S)
      → mounted s path ≡ true
      → n.fs.unmount path s ≡ (ok tt, s')
      → mounted s' path ≡ false
  pub looks : (path : String) (s : S) → (n.os.stat path s).1 ≡ s
  pub removes :
      (path : String) (s s' : S)
      → n.os.remove path s ≡ (ok tt, s')
      → (mounted s' path ≡ mounted s path) × ((e : Error) × ((n.os.stat path s').0 ≡ err e))

-- A path that passed the checks is not empty.
pub named-full : (id path : String) → named id path ≡ ok tt → str_eq path "" ≡ false
named-full id path e = elim (Bool-cases (str_eq id "")) [
  | inl none' ↦ absurd (cc (rw none' at e))
  | inr some' ↦ elim (Bool-cases (str_eq path "")) [
    | inl none' ↦ absurd (cc (rw (some', none') at e))
    | inr full ↦ full
  ]
]

pub validated :
    (req : NodePublishRequest)
    → validate_node_publish_volume_request req ≡ ok tt
    → str_eq req.target_path "" ≡ false
unfolding validate_node_publish_volume_request
validated req e = elim (Bool-cases (str_eq req.target_path "")) [
  | inr full ↦ full
  | inl none' ↦ elim (Bool-cases (str_eq req.volume_id "")) [
    | inl a ↦ absurd (cc (rw a at e))
    | inr a ↦ elim (Bool-cases (str_eq req.staging_target_path "")) [
      | inl b ↦ absurd (cc (rw (a, b) at e))
      | inr b ↦ absurd (cc (rw (a, b, none') at e))
    ]
  ]
]

module _ {S : Type 0} (n : Node S) (mounted : S → String → Bool) (host : HostMounts n mounted) where
  -- Mounts the target, or finds it mounted.
  pub target_mounted :
      (source target fs_type : String) (options : List String) (s s' : S)
      → str_eq target "" ≡ false
      → mount_unless_mounted n source target fs_type options s ≡ (ok tt, s')
      → mounted s' target ≡ true
  unfolding mount_unless_mounted
  target_mounted source target fs_type options s s' full e = elim (Bool-cases (mounted s target)) [
    | inl there ↦
        let same : (ok tt, s) ≡ (ok tt, s') = rw (host.asks target s full, there) at e in
        subst (λ z. mounted z target ≡ true) (ap (λ z. z.1) same) there
    | inr free ↦ host.mounts source target fs_type options s s' (
        map_error-eq-ok internal_error (n.fs.mount source target fs_type options) s s' tt
          (rw (host.asks target s full, free) at e))
  ]

  again_mounted :
      (source target fs_type : String) (options : List String) (s : S)
      → str_eq target "" ≡ false
      → mounted s target ≡ true
      → mount_unless_mounted n source target fs_type options s ≡ (ok tt, s)
  unfolding mount_unless_mounted
  again_mounted source target fs_type options s full there = rw (host.asks target s full, there)

  -- The path is not mounted, and `stat` fails for it.
  abbrev pub IsReleased : String → S → Type 0
  IsReleased path s = (mounted s path ≡ false) × ((e : Error) × ((n.os.stat path s).0 ≡ err e))

  -- The path is not mounted and does not exist.
  abbrev pub IsGone : String → S → Type 0
  IsGone path s =
      (mounted s path ≡ false)
      × ((e : Error) × ((n.os.stat path s).0 ≡ err e) × (is_not_exist e ≡ true))

  removed :
      (path : String) (s s' : S)
      → mounted s path ≡ false
      → (there : Option (Unit {0})) → IsAttempt (n.os.stat path) s there
      → remove_found n path there s ≡ (ok tt, s')
      → IsReleased path s'
  removed path s s' free none (inr (c, _, gone)) e =
      subst (IsReleased path) (ap (λ z. z.1) e) (free, (c, gone))
  removed path s s' free none (inl (a, odd, _)) e = absurd (cc odd)
  removed path s s' free (some u) found e =
      let (keeps, gone) =
        host.removes path s s' (map_error-eq-ok internal_error (n.os.remove path) s s' tt e) in
      (keeps ∙ free, gone)

  remove_path-IsReleased :
      (path : String) (s s' : S)
      → mounted s path ≡ false
      → remove_path n path s ≡ (ok tt, s')
      → IsReleased path s'
  unfolding remove_path
  remove_path-IsReleased path s s' free e =
      let (there, t, e1, e2) =
        bind-eq-ok (attempt (n.os.stat path)) (remove_found n path) s s' tt e in
      let (same, found) = attempt-eq-ok (n.os.stat path) s t there e1 in
      let back : t ≡ s = sym same ∙ host.looks path s in
      removed path s s' free there found
        (subst (λ z. remove_found n path there z ≡ (ok tt, s')) back e2)

  pub release_path-IsReleased :
      (path : String) (s s' : S)
      → str_eq path "" ≡ false
      → release_path n path s ≡ (ok tt, s')
      → IsReleased path s'
  unfolding release_path
  release_path-IsReleased path s s' full e = elim (Bool-cases (mounted s path)) [
    | inr free ↦ remove_path-IsReleased path s s' free (rw (host.asks path s full, free) at e)
    | inl there ↦
        let (_, t, e1, e2) =
          bind-eq-ok (n.fs.unmount path) (λ z. remove_path n path) s s' tt
            (rw (host.asks path s full, there) at e) in
        remove_path-IsReleased path t s' (host.unmounts path s t there e1) e2
  ]

  again_released :
      (path : String) (s : S)
      → str_eq path "" ≡ false
      → IsReleased path s
      → release_path n path s ≡ (ok tt, s)
  unfolding release_path remove_path
  again_released path s full (free, (c, gone)) =
      ground (arith, host.asks path s full, free, gone, host.looks path s)

  published :
      (req : NodePublishRequest) (device : String) (a : AccessType) (s s' : S)
      → n.fs.get_device_by_id req.volume_id s' ≡ (ok device, s')
      → str_eq req.target_path "" ≡ false
      → publish_access n req a s ≡ (ok tt, s')
      → (mounted s' req.target_path ≡ true) × (publish_access n req a s' ≡ (ok tt, s'))
  unfolding publish_access
  published req device unset s s' found full e = absurd (cc e)
  published req device (mount mnt) s s' found full e =
      let source = req.staging_target_path in
      let fs_type = fs_type_or_default mnt.fs_type in
      let options = bind_options n req.readonly ++ mnt.mount_flags in
      let there = target_mounted source req.target_path fs_type options s s' full e in
      (there, again_mounted source req.target_path fs_type options s' full there)
  published req device block s s' found full e =
      let (source, t, _, e2) =
        bind-eq-ok (map_error internal_error (n.fs.get_device_by_id req.volume_id))
          (λ d. mount_unless_mounted n d req.target_path "" (bind_options n req.readonly)) s s' tt
          e in
      let there =
        target_mounted source req.target_path "" (bind_options n req.readonly) t s' full e2 in
      let again =
        again_mounted device req.target_path "" (bind_options n req.readonly) s' full there in
      (there, ground (arith, found, again))

  -- On a host whose mounts behave, a volume that was published is mounted at the target; and where its
  -- device can then be looked up without a change, publishing it again succeeds and changes nothing.
  pub node_publish_volume_idempotent :
      (req : NodePublishRequest) (device : String) (s s' : S)
      → n.fs.get_device_by_id req.volume_id s' ≡ (ok device, s')
      → node_publish_volume n req s ≡ (ok tt, s')
      → (mounted s' req.target_path ≡ true) × (node_publish_volume n req s' ≡ (ok tt, s'))
  unfolding node_publish_volume
  node_publish_volume_idempotent req device s s' found e =
      let a = access_of n req.volume_capability in
      let (_, t, e1, e2) =
        bind-eq-ok (lift (validate_node_publish_volume_request req)) (λ z. publish_access n req a) s
          s' tt e in
      let valid : validate_node_publish_volume_request req ≡ ok tt = ap (λ z. z.0) e1 in
      let (there, again) = published req device a t s' found (validated req valid) e2 in
      (there, rw (valid, again))

  -- On a host whose mounts behave, and where `stat` fails only for a path that does not exist, a volume
  -- that was unpublished is not mounted at the target, and the target does not exist; unpublishing it
  -- again succeeds and changes nothing.
  pub node_unpublish_volume_releases :
      (req : NodeUnpublishRequest) (s s' : S)
      → ((path : String) (e : Error) (t : S) → (n.os.stat path t).0 ≡ err e → is_not_exist e ≡ true)
      → node_unpublish_volume n req s ≡ (ok tt, s')
      → IsGone req.target_path s' × (node_unpublish_volume n req s' ≡ (ok tt, s'))
  unfolding node_unpublish_volume
  node_unpublish_volume_releases req s s' absent e =
      let (_, t, e1, e2) =
        bind-eq-ok (lift (named req.volume_id req.target_path))
          (λ z. release_path n req.target_path) s s' tt e in
      let valid : named req.volume_id req.target_path ≡ ok tt = ap (λ z. z.0) e1 in
      let full = named-full req.volume_id req.target_path valid in
      let gone = release_path-IsReleased req.target_path t s' full e2 in
      let (free, (c, failed)) = gone in
      (
        (free, (c, failed, absent req.target_path c s' failed)),
        rw (valid, again_released req.target_path s' full gone),
      )

  -- The same of unstaging, for the staging path.
  node_unstage_volume_releases :
      (req : UnstageRequest) (s s' : S)
      → node_unstage_volume n req s ≡ (ok tt, s')
      → IsReleased req.staging_target_path s' × (node_unstage_volume n req s' ≡ (ok tt, s'))
  unfolding node_unstage_volume
  node_unstage_volume_releases req s s' e =
      let (_, t, e1, e2) =
        bind-eq-ok (lift (named req.volume_id req.staging_target_path))
          (λ z. release_path n req.staging_target_path) s s' tt e in
      let valid : named req.volume_id req.staging_target_path ≡ ok tt = ap (λ z. z.0) e1 in
      let full = named-full req.volume_id req.staging_target_path valid in
      let gone = release_path-IsReleased req.staging_target_path t s' full e2 in
      (gone, rw (valid, again_released req.staging_target_path s' full gone))
