-- ===== src/Node.antt =====
-- The node server (internal/node/node.go): the node's configuration and the handlers.
pub mod Stage
pub mod Targets
pub mod Frame
pub mod Staged
pub mod Lifecycle
pub mod Host
pub mod HostStage
pub mod HostTools
pub mod HostFrame
pub mod Zone
pub mod Volumes
pub mod Growth
use upcloud_csi.Base.{
  ℤ, pos, Bool, true, false, Option, none, some, List, [], ◌∷◌, ◌++◌, String, ◌<>◌, index, str_eq,
  if◌then◌else◌,
}
use upcloud_csi.Go.{
  Action, Result, ok, err, panic, Error, status, plain, internal, invalid_argument, already_exists,
  not_found, not_mounted, is_not_exist, pure, raise, lift, catch, map_error, allow, attempt, ◌>>=◌,
  ◌>>◌,
}
use upcloud_csi.Go.Os.{Os}
use upcloud_csi.Go.Text.{to_lower}
use upcloud_csi.Csi.{AccessType, unset, block, mount, MountVolume, VolumeCapability, is_block}
use upcloud_csi.Csi.NodeMessages.{
  StageRequest, UnstageRequest, NodePublishRequest, NodeUnpublishRequest, StatsRequest,
  NodeExpandRequest, VolumeUsage, bytes, inodes, NodeInfo,
}
use upcloud_csi.Filesystem.{Filesystem, MountInfo, VolumeStatistics}
use upcloud_csi.Service.File.{is_valid_file_storage_uuid}
use upcloud_csi.Controller.{
  volume_context_type_key, volume_type_file_storage, nfs_server_key, nfs_path_key,
}

-- The package `os` and the test of `uuid.Parse` are third-party or of the operating system.
pub record Node (S : Type 0) : Type 0 where
  pub name : String
  pub zone : String
  pub max_volumes_per_node : ℤ
  pub fs : Filesystem S
  pub os : Os S
  pub parses_uuid : String → Bool

unfoldable pub new_node :
    {S : Type 0} → String → String → ℤ → Filesystem S → Os S → (String → Bool) → Result (Node S)
new_node name zone max_volumes_per_node fs os parses_uuid =
    if str_eq name ""
    then err (plain "node name is required field")
    else if str_eq zone ""
    then err (plain "node zone is required field")
    else ok (record {
      name = name;
      zone = zone;
      max_volumes_per_node = max_volumes_per_node;
      fs = fs;
      os = os;
      parses_uuid = parses_uuid;
    })

abbrev pub file_system_ext4 : String
file_system_ext4 = "ext4"

abbrev pub nfs_mount_options : List String
nfs_mount_options =
    "vers=4.1" ∷ "nconnect=8" ∷ "rsize=1048576" ∷ "wsize=1048576" ∷ "noatime" ∷ "hard" ∷ []

-- The type that is asked for, ext4 where none is.
abbrev pub fs_type_or_default : String → String
fs_type_or_default t = if str_eq t "" then file_system_ext4 else t

-- `status.Error(codes.Internal, err.Error())`
abbrev pub internal_error : Error → Error
internal_error e = status internal

-- The checks of a request that names a volume and a path.
abbrev pub named : String → String → Result (Unit {0})
named volume_id path =
    if str_eq volume_id ""
    then err (status invalid_argument)
    else if str_eq path ""
    then err (status invalid_argument)
    else ok tt

unfoldable pub validate_node_publish_volume_request : NodePublishRequest → Result (Unit {0})
validate_node_publish_volume_request r =
    if str_eq r.volume_id ""
    then err (status invalid_argument)
    else if str_eq r.staging_target_path ""
    then err (status invalid_argument)
    else if str_eq r.target_path ""
    then err (status invalid_argument)
    else elim r.volume_capability [ none ↦ err (status invalid_argument) | some c ↦ ok tt ]

module _ {S : Type 0} (n : Node S) where
  unfoldable pub stage_file_storage_volume : StageRequest → Action S (Unit {0})
  stage_file_storage_volume req =
      let server = index req.volume_context nfs_server_key in
      let path = index req.volume_context nfs_path_key in
      if str_eq server ""
      then raise (status invalid_argument)
      else if str_eq path ""
      then raise (status invalid_argument)
      else (do
        mounted ← n.fs.is_mounted req.staging_target_path
        if mounted
            then pure tt
            else map_error internal_error (
                n.fs.mount (server <> (":" <> path)) req.staging_target_path "nfs"
                  nfs_mount_options))

  -- What staging does where something is mounted at the target, or nothing is.
  unfoldable pub stage_at :
      StageRequest → String → String → List String → Option MountInfo → Action S (Unit {0})
  stage_at req source fs_type options (some info) =
      if str_eq (to_lower info.fs_type) (to_lower fs_type)
      then pure tt
      else raise (status already_exists)
  stage_at req source fs_type options none = do
    map_error internal_error (n.fs.format source fs_type [])
    partition ← map_error internal_error (n.fs.get_device_last_partition source)
    map_error internal_error (n.fs.mount partition req.staging_target_path fs_type options)

  -- `GetMountInfo`, where `ErrNotMounted` is no error.
  unfoldable pub current_mount : String → Action S (Option MountInfo)
  current_mount target = do
    found ← map_error internal_error (allow not_mounted (n.fs.get_mount_info target))
    pure (elim found [ none ↦ none | some info ↦ info ])

  unfoldable pub stage_mount : StageRequest → MountVolume → Action S (Unit {0})
  unfolding stage_at current_mount
  stage_mount req mnt = do
    source ← map_error (λ e. status invalid_argument) (n.fs.get_device_by_id req.volume_id)
    info ← current_mount req.staging_target_path
    stage_at req source (fs_type_or_default mnt.fs_type) mnt.mount_flags info

  -- Without an access type `mnt` is nil, and reading its `FsType` panics.
  unfoldable pub stage_access : StageRequest → AccessType → Action S (Unit {0})
  unfolding stage_mount
  stage_access req block = pure tt
  stage_access req (mount mnt) = stage_mount req mnt
  stage_access req unset = lift panic

  unfoldable pub stage_capability : StageRequest → Option VolumeCapability → Action S (Unit {0})
  unfolding stage_file_storage_volume stage_access
  stage_capability req none = raise (status invalid_argument)
  stage_capability req (some cap) =
      if str_eq (index req.volume_context volume_context_type_key) volume_type_file_storage
      then stage_file_storage_volume req
      else stage_access req cap.access_type

  unfoldable pub node_stage_volume : StageRequest → Action S (Unit {0})
  unfolding stage_capability
  node_stage_volume req = do
    lift (named req.volume_id req.staging_target_path)
    stage_capability req req.volume_capability

  abbrev pub remove_found : String → Option (Unit {0}) → Action S (Unit {0})
  remove_found path none = pure tt
  remove_found path (some u) = map_error internal_error (n.os.remove path)

  -- `os.Remove` where `os.Stat` finds the path.
  unfoldable pub remove_path : String → Action S (Unit {0})
  remove_path path = attempt (n.os.stat path) >>= remove_found path

  -- Unmounts the path if it is mounted, and removes it if it is there.
  unfoldable pub release_path : String → Action S (Unit {0})
  unfolding remove_path
  release_path path = do
    mounted ← n.fs.is_mounted path
    if mounted then n.fs.unmount path else pure tt
    remove_path path

  unfoldable pub node_unstage_volume : UnstageRequest → Action S (Unit {0})
  unfolding release_path
  node_unstage_volume req = do
    lift (named req.volume_id req.staging_target_path)
    release_path req.staging_target_path

  unfoldable pub node_unpublish_volume : NodeUnpublishRequest → Action S (Unit {0})
  unfolding release_path
  node_unpublish_volume req = do
    lift (named req.volume_id req.target_path)
    release_path req.target_path

  -- The options of every bind mount.
  abbrev pub bind_options : Bool → List String
  bind_options readonly = if readonly then "bind" ∷ "ro" ∷ [] else "bind" ∷ []

  unfoldable pub mount_unless_mounted : String → String → String → List String → Action S (Unit {0})
  mount_unless_mounted source target fs_type options = do
    mounted ← n.fs.is_mounted target
    if mounted then pure tt else map_error internal_error (n.fs.mount source target fs_type options)

  unfoldable pub publish_access : NodePublishRequest → AccessType → Action S (Unit {0})
  unfolding mount_unless_mounted
  publish_access req block = do
    source ← map_error internal_error (n.fs.get_device_by_id req.volume_id)
    mount_unless_mounted source req.target_path "" (bind_options req.readonly)
  publish_access req (mount mnt) =
      mount_unless_mounted req.staging_target_path req.target_path (fs_type_or_default mnt.fs_type)
        (bind_options req.readonly ++ mnt.mount_flags)
  publish_access req unset = raise (status invalid_argument)

  -- The message is checked to be there before.
  abbrev pub access_of : Option VolumeCapability → AccessType
  access_of none = unset
  access_of (some cap) = cap.access_type

  unfoldable pub node_publish_volume : NodePublishRequest → Action S (Unit {0})
  unfolding publish_access
  node_publish_volume req = do
    lift (validate_node_publish_volume_request req)
    publish_access req (access_of req.volume_capability)
