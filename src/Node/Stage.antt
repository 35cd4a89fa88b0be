-- ===== src/Node/Stage.antt =====
-- Staging a block-storage volume (internal/node/node.go).
use upcloud_csi.Base.{
  ◌≡◌, refl, sym, ap, subst, ◌∙◌, if◌then◌else◌, true, false, Option, none, some, Bool-cases,
  Option-cases, inl, inr, List, [], String, str_eq, index, All, not, ◌||◌, Bool,
}
use upcloud_csi.Go.{
  Result, ok, err, not_mounted, sentinel, already_exists, status, invalid_argument, map_error,
}
use upcloud_csi.Go.Inversion.{bind-eq-ok, map_error-eq-ok}
use upcloud_csi.Go.Text.{to_lower, contains}
use upcloud_csi.Csi.{VolumeCapability, mount, MountVolume}
use upcloud_csi.Csi.NodeMessages.{StageRequest}
use upcloud_csi.Filesystem.{MountInfo}
use upcloud_csi.Controller.{volume_context_type_key, volume_type_file_storage}
use upcloud_csi.Node.{
  Node, node_stage_volume, stage_capability, stage_access, stage_at, current_mount, stage_mount,
  fs_type_or_default, internal_error,
}

-- What `GetMountInfo` says of the path.
abbrev pub answer_of : Option MountInfo → Result (Option MountInfo)
answer_of none = err (sentinel not_mounted)
answer_of (some info) = ok (some info)

-- The filesystem type of the mount is the one, in any case of letters.
abbrev pub HasType : String → MountInfo → Type 0
HasType fs_type info = str_eq (to_lower info.fs_type) (to_lower fs_type) ≡ true

-- The filesystem types of disks, which findmnt reports as mount was given them.
abbrev pub is_disk_type : String → Bool
is_disk_type t = str_eq t "ext2" || str_eq t "ext3" || str_eq t "ext4" || str_eq t "xfs"

-- A mount option that makes no bind mount, moves no mount, changes none that is there, and leaves the
-- propagation alone.
abbrev pub is_plain : String → Bool
is_plain o = not (
    contains o "bind"
    || contains o "move"
    || contains o "remount"
    || contains o "private"
    || contains o "slave")

-- What mount and findmnt promise: the question only reads; a path where the filesystem of a disk was
-- mounted with plain options is found mounted, with the filesystem type of the mount.
pub record HostVolumes {S : Type 0} (n : Node S) (info_of : S → String → Option MountInfo)
    : Type 0 where
  pub asks :
      (path : String) (s : S)
      → str_eq path "" ≡ false
      → n.fs.get_mount_info path s ≡ (answer_of (info_of s path), s)
  pub mounts :
      (source path fs_type : String) (options : List String) (s s' : S)
      → is_disk_type fs_type ≡ true
      → All (λ o. is_plain o ≡ true) options
      → n.fs.mount source path fs_type options s ≡ (ok tt, s')
      → (info : MountInfo) × (info_of s' path ≡ some info) × HasType fs_type info

-- A request to stage a block-storage volume with ext2, ext3, ext4 or xfs and with plain mount flags.
pub record IsBlockStage (req : StageRequest) (mnt : MountVolume) : Type 0 where
  pub volume_named : str_eq req.volume_id "" ≡ false
  pub path_named : str_eq req.staging_target_path "" ≡ false
  pub capability : VolumeCapability
  pub capability_given : req.volume_capability ≡ some capability
  pub mounts : capability.access_type ≡ mount mnt
  pub on_disk : is_disk_type (fs_type_or_default mnt.fs_type) ≡ true
  pub plain_flags : All (λ o. is_plain o ≡ true) mnt.mount_flags
  pub not_file_storage :
      str_eq (index req.volume_context volume_context_type_key) volume_type_file_storage ≡ false

module _ {S : Type 0} (n : Node S) (info_of : S → String → Option MountInfo)
    (host : HostVolumes n info_of) where
  -- The path is mounted with the filesystem type.
  abbrev pub IsStaged : String → String → S → Type 0
  IsStaged path fs_type s = (info : MountInfo) × (info_of s path ≡ some info) × HasType fs_type info

  current_mount_lem :
      (path : String) (s : S)
      → str_eq path "" ≡ false
      → current_mount n path s ≡ (ok (info_of s path), s)
  unfolding current_mount
  current_mount_lem path s full = elim (Option-cases (info_of s path)) [
    | inl free ↦ rw (host.asks path s full, free)
    | inr (info, there) ↦ rw (host.asks path s full, there)
  ]

  stage_at-IsStaged :
      (req : StageRequest) (source fs_type : String) (options : List String) (o : Option MountInfo)
      (s s' : S)
      → is_disk_type fs_type ≡ true
      → All (λ o. is_plain o ≡ true) options
      → info_of s req.staging_target_path ≡ o
      → stage_at n req source fs_type options o s ≡ (ok tt, s')
      → IsStaged req.staging_target_path fs_type s'
  unfolding stage_at
  stage_at-IsStaged req source fs_type options (some info) s s' disk plain there e =
      elim (Bool-cases (str_eq (to_lower info.fs_type) (to_lower fs_type))) [
        | inr other ↦ absurd (cc (rw other at e))
        | inl same ↦
            let stays : (ok tt, s) ≡ (ok tt, s') = rw same at e in
            subst (IsStaged req.staging_target_path fs_type) (ap (λ z. z.1) stays)
              (info, there, same)
      ]
  stage_at-IsStaged req source fs_type options none s s' disk plain there e =
      let (_, t, _, e2) =
        bind-eq-ok (map_error internal_error (n.fs.format source fs_type [])) _ s s' tt e in
      let (partition, t', _, e3) =
        bind-eq-ok (map_error internal_error (n.fs.get_device_last_partition source))
          (λ p. map_error internal_error (n.fs.mount p req.staging_target_path fs_type options)) t
          s' tt e2 in
      host.mounts partition req.staging_target_path fs_type options t' s' disk plain (
        map_error-eq-ok internal_error
          (n.fs.mount partition req.staging_target_path fs_type options) t' s' tt e3)

  -- The request passes the checks, and is one to mount.
  stage-eq-mount :
      (req : StageRequest) (mnt : MountVolume) (s : S)
      → IsBlockStage req mnt
      → node_stage_volume n req s ≡ stage_mount n req mnt s
  unfolding node_stage_volume stage_capability stage_access
  stage-eq-mount req mnt s is =
      rw (is.volume_named, is.path_named, is.capability_given, is.not_file_storage, is.mounts)

  stage_mount-at :
      (req : StageRequest) (mnt : MountVolume) (device : String) (s t : S)
      → str_eq req.staging_target_path "" ≡ false
      → n.fs.get_device_by_id req.volume_id s ≡ (ok device, t)
      → stage_mount n req mnt s
        ≡ stage_at n req device
            (fs_type_or_default mnt.fs_type)
            mnt.mount_flags
            (info_of t req.staging_target_path)
            t
  unfolding stage_mount
  stage_mount-at req mnt device s t full found =
      rw (found, current_mount_lem req.staging_target_path t full)

  already_staged :
      (req : StageRequest) (mnt : MountVolume) (device : String) (info : MountInfo) (s : S)
      → IsBlockStage req mnt
      → n.fs.get_device_by_id req.volume_id s ≡ (ok device, s)
      → info_of s req.staging_target_path ≡ some info
      → node_stage_volume n req s
        ≡ stage_at n req device (fs_type_or_default mnt.fs_type) mnt.mount_flags (some info) s
  already_staged req mnt device info s is found there =
      stage-eq-mount req mnt s is
      ∙ stage_mount-at req mnt device s s is.path_named found
      ∙ ap (λ o. stage_at n req device (fs_type_or_default mnt.fs_type) mnt.mount_flags o s) there

  -- A block-storage volume whose staging path is mounted is never formatted or mounted over: nothing
  -- of the host changes, and the answer is OK if the filesystem type of the mount is the one that is
  -- asked for, `AlreadyExists` if not.
  node_stage_volume_mounted :
      (req : StageRequest) (mnt : MountVolume) (device : String) (info : MountInfo) (s : S)
      → IsBlockStage req mnt
      → n.fs.get_device_by_id req.volume_id s ≡ (ok device, s)
      → info_of s req.staging_target_path ≡ some info
      → node_stage_volume n req s ≡ (
        if str_eq (to_lower info.fs_type) (to_lower (fs_type_or_default mnt.fs_type))
            then ok tt
            else err (status already_exists),
        s,
      )
  unfolding stage_at
  node_stage_volume_mounted req mnt device info s is found there =
      already_staged req mnt device info s is found there
      ∙ elim (Bool-cases
          (str_eq (to_lower info.fs_type) (to_lower (fs_type_or_default mnt.fs_type)))) [
            | inl same ↦ rw same
            | inr other ↦ rw other
          ]

  -- On a host that finds the mounts of disks again, a block-storage volume that was staged with ext2,
  -- ext3, ext4 or xfs, ext4 if no type was asked for, and with flags that make no bind mount, move or
  -- remount nothing and leave the propagation alone, is mounted at the staging path with that
  -- filesystem type; and where its device can then be looked up without a change, staging it again
  -- succeeds and changes nothing.
  pub node_stage_volume_idempotent :
      (req : StageRequest) (mnt : MountVolume) (device : String) (s s' : S)
      → IsBlockStage req mnt
      → n.fs.get_device_by_id req.volume_id s' ≡ (ok device, s')
      → node_stage_volume n req s ≡ (ok tt, s')
      → IsStaged req.staging_target_path (fs_type_or_default mnt.fs_type) s'
        × (node_stage_volume n req s' ≡ (ok tt, s'))
  unfolding stage_mount
  node_stage_volume_idempotent req mnt device s s' is found e =
      let fs_type = fs_type_or_default mnt.fs_type in
      let (source, t, e1, _) =
        bind-eq-ok (map_error (λ c. status invalid_argument) (n.fs.get_device_by_id req.volume_id))
          _ s s' tt (sym (stage-eq-mount req mnt s is) ∙ e) in
      let found' =
        map_error-eq-ok (λ c. status invalid_argument) (n.fs.get_device_by_id req.volume_id) s t
          source e1 in
      let (info, there, same) =
        stage_at-IsStaged req source fs_type mnt.mount_flags (info_of t req.staging_target_path) t
          s' is.on_disk is.plain_flags refl
          (sym (stage_mount-at req mnt source s t is.path_named found')
            ∙ sym (stage-eq-mount req mnt s is)
            ∙ e) in
      (
        (info, there, same),
        node_stage_volume_mounted req mnt device info s' is found there ∙ rw same,
      )
