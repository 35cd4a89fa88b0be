-- ===== src/Node/Frame.antt =====
-- What the calls of the node server (internal/node/node.go) leave alone.
use upcloud_csi.Base.{
  ◌≡◌, sym, ap, subst, ◌∙◌, Bool, true, false, Option, none, some, Bool-cases, inl, inr, List, ◌++◌,
  String, str_eq, eq_iff, if◌then◌else◌,
}
use upcloud_csi.Go.{Action, ok, map_error}
use upcloud_csi.Go.Preserves.{Preserves, preserves_rules, bind-Preserves}
use upcloud_csi.Csi.{AccessType, mount, unset, block, MountVolume}
use upcloud_csi.Csi.NodeMessages.{StageRequest, NodePublishRequest}
use upcloud_csi.Filesystem.{MountInfo}
use upcloud_csi.Node.{
  Node, stage_mount, stage_at, stage_file_storage_volume, current_mount, publish_access,
  mount_unless_mounted, release_path, remove_path, remove_found, fs_type_or_default, bind_options,
  internal_error,
}
use upcloud_csi.Node.Targets.{HostMounts}

abbrev pub set : String → Bool → (String → Bool) → String → Bool
set path b m q = if str_eq q path then b else m q

-- What the tools of the host leave alone: looking up a device, formatting it and reading a mount mount
-- and unmount nothing; mounting and unmounting change one path; removing a path unmounts nothing. A
-- mount whose information is read is there.
pub record HostFrame {S : Type 0} (n : Node S) (mounted : S → String → Bool) : Type 0 where
  pub finds : (id q : String) → Preserves (λ s. mounted s q) (n.fs.get_device_by_id id)
  pub formats :
      (source fs_type : String) (args : List String) (q : String)
      → Preserves (λ s. mounted s q) (n.fs.format source fs_type args)
  pub partitions :
      (source q : String) → Preserves (λ s. mounted s q) (n.fs.get_device_last_partition source)
  pub reads : (path q : String) → Preserves (λ s. mounted s q) (n.fs.get_mount_info path)
  pub informs :
      (path : String) (info : MountInfo) (s s' : S)
      → n.fs.get_mount_info path s ≡ (ok (some info), s')
      → mounted s path ≡ true
  pub mount_others :
      (source path fs_type : String) (options : List String) (q : String)
      → str_eq q path ≡ false
      → Preserves (λ s. mounted s q) (n.fs.mount source path fs_type options)
  pub unmount_others :
      (path q : String) → str_eq q path ≡ false → Preserves (λ s. mounted s q) (n.fs.unmount path)
  pub looks : (path q : String) → Preserves (λ s. mounted s q) (n.os.stat path)
  pub removes : (path q : String) → Preserves (λ s. mounted s q) (n.os.remove path)

module _ {S : Type 0} (n : Node S) (mounted : S → String → Bool) (host : HostMounts n mounted)
    (frame : HostFrame n mounted) where
  -- The mounted paths after are those of before, but for one.
  abbrev pub Sets : String → Bool → S → S → Type 0
  Sets path b s s' = (q : String) → mounted s' q ≡ set path b (mounted s) q

  -- The call leaves the other paths alone.
  abbrev pub Spares : {A : Type 0} → String → Action S A → Type 0
  Spares path m = (q : String) → str_eq q path ≡ false → Preserves (λ s. mounted s q) m

  pub Sets-of :
      (path : String) (b : Bool) (m : Action S (Unit {0})) (s s' : S)
      → m s ≡ (ok tt, s')
      → mounted s' path ≡ b
      → Spares path m
      → Sets path b s s'
  Sets-of path b m s s' e at others q = elim (Bool-cases (str_eq q path)) [
    | inl same ↦ rw same (subst (λ z. mounted s' z ≡ b) (sym ((eq_iff q path).0 same)) at)
    | inr other ↦ rw other (sym (ap (λ (z : _ × S). mounted z.1 q) e) ∙ (others q other).at s)
  ]

  asks-Preserves :
      (path q : String)
      → str_eq path "" ≡ false
      → Preserves (λ s. mounted s q) (n.fs.is_mounted path)
  asks-Preserves path q full = record {
    at = λ s. ap (λ (z : _ × S). mounted z.1 q) (host.asks path s full);
  }

  pub mount_unless_mounted-Spares :
      (source target fs_type : String) (options : List String)
      → str_eq target "" ≡ false
      → Spares target (mount_unless_mounted n source target fs_type options)
  unfolding mount_unless_mounted
  mount_unless_mounted-Spares source target fs_type options full q other =
      search (preserves_rules, frame.mount_others, asks-Preserves) depth 10

  remove_found-Spares :
      (path q : String) (o : Option (Unit {0}))
      → Preserves (λ s. mounted s q) (remove_found n path o)
  remove_found-Spares path q none = search preserves_rules
  remove_found-Spares path q (some u) = search (preserves_rules, frame.removes) depth 6

  remove_path-Spares : (path q : String) → Preserves (λ s. mounted s q) (remove_path n path)
  unfolding remove_path
  remove_path-Spares path q = search (preserves_rules, frame.looks, remove_found-Spares) depth 12

  pub release_path-Spares :
      (path : String) → str_eq path "" ≡ false → Spares path (release_path n path)
  unfolding release_path
  release_path-Spares path full q other =
      search (preserves_rules, frame.unmount_others, asks-Preserves, remove_path-Spares) depth 10

  pub stage_file-Spares :
      (req : StageRequest)
      → str_eq req.staging_target_path "" ≡ false
      → Spares req.staging_target_path (stage_file_storage_volume n req)
  unfolding stage_file_storage_volume
  stage_file-Spares req full q other =
      search (preserves_rules, frame.mount_others, asks-Preserves) depth 12

  stage_at-Spares :
      (req : StageRequest) (source fs_type : String) (options : List String) (o : Option MountInfo)
      → Spares req.staging_target_path (stage_at n req source fs_type options o)
  unfolding stage_at
  stage_at-Spares req source fs_type options (some info) q other = search preserves_rules depth 6
  stage_at-Spares req source fs_type options none q other =
      search (preserves_rules, frame.formats, frame.partitions, frame.mount_others) depth 12

  current_mount-Preserves : (path q : String) → Preserves (λ s. mounted s q) (current_mount n path)
  unfolding current_mount
  current_mount-Preserves path q = search (preserves_rules, frame.reads) depth 12

  pub stage_mount-Spares :
      (req : StageRequest) (mnt : MountVolume)
      → Spares req.staging_target_path (stage_mount n req mnt)
  unfolding stage_mount
  stage_mount-Spares req mnt q other =
      search (preserves_rules, frame.finds, current_mount-Preserves, stage_at-Spares) depth 12

  pub publish_access-Spares :
      (req : NodePublishRequest) (a : AccessType)
      → str_eq req.target_path "" ≡ false
      → Spares req.target_path (publish_access n req a)
  unfolding publish_access
  publish_access-Spares req unset full q other = search preserves_rules
  publish_access-Spares req (mount mnt) full q other =
      mount_unless_mounted-Spares req.staging_target_path req.target_path
        (fs_type_or_default mnt.fs_type) (bind_options n req.readonly ++ mnt.mount_flags) full q
        other
  publish_access-Spares req block full q other =
      bind-Preserves (map_error internal_error (n.fs.get_device_by_id req.volume_id))
        (λ d. mount_unless_mounted n d req.target_path "" (bind_options n req.readonly))
        (search (preserves_rules, frame.finds) depth 6)
        (λ d.
          mount_unless_mounted-Spares d req.target_path "" (bind_options n req.readonly) full q
            other)
