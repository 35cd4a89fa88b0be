-- ===== src/Node/HostStage.antt =====
-- The node server over the Linux filesystem (internal/filesystem/linux_filesystem.go): the tools of the
-- host make it a host that staging can rely on.
use upcloud_csi.Base.{
  ◌≡◌, sym, subst, arith, true, false, Option, none, some, Bool-cases, inl, inr, List, [], ◌∷◌,
  ◌++◌, String, str_eq, eq_iff, All,
}
use upcloud_csi.Go.{ok, Error, pure, lift, ◌>>=◌, ◌>>◌}
use upcloud_csi.Go.Inversion.{bind-eq-ok}
use upcloud_csi.Go.Text.{trim_space}
use upcloud_csi.Filesystem.{MountInfo}
use upcloud_csi.Filesystem.System.{System, Output, MountEntry, run_command, run_or_wrap}
use upcloud_csi.Filesystem.Mounts.{
  device_by_id, entries_of, findmnt_args, findmnt, find_mount, mount_info_of, mount_source,
  mount_point, mount_options, read_mount,
}
use upcloud_csi.Filesystem.Tools.{ran}
use upcloud_csi.Filesystem.Linux.{LinuxFilesystem, linux_filesystem}
use upcloud_csi.Csi.{MountVolume}
use upcloud_csi.Csi.NodeMessages.{StageRequest}
use upcloud_csi.Node.{Node, node_stage_volume, fs_type_or_default}
use upcloud_csi.Node.Stage.{
  IsBlockStage, node_stage_volume_idempotent, HostVolumes, HasType, answer_of, is_disk_type,
  is_plain,
}
use upcloud_csi.Node.Host.{over_linux}

-- The columns that `GetMountInfo` asks for.
abbrev pub info_columns : String
info_columns = "SOURCE,TARGET,PROPAGATION,FSTYPE,OPTIONS"

abbrev pub info_of_entry : MountEntry → MountInfo
info_of_entry x = record { source = x.source; fs_type = x.fs_type; options = x.options }

-- An answer of findmnt: it fails and writes nothing for a path where nothing is mounted, and it
-- reports the one mount there, which is shared, otherwise.
abbrev pub IsInfo : {S : Type 0} → System S → Option MountInfo → String → Output → Type 0
IsInfo y none path out =
    (e : Error) × (out.failure ≡ some e) × (str_eq (trim_space out.text) "" ≡ true)
IsInfo y (some info) path out =
    (x : MountEntry) × (out.failure ≡ none)
    × (str_eq out.text "" ≡ false)
    × (y.decode out.text ≡ some (some (x ∷ [])))
    × (str_eq x.target path ≡ true)
    × (str_eq x.propagation "shared" ≡ true)
    × (info_of_entry x ≡ info)

-- What findmnt and mount promise of the table of mounts, with the filesystem type of each: the mount
-- of a disk with plain options is reported with the type that mount was given.
pub record VolumeTable {S : Type 0} (y : System S) (info_of : S → String → Option MountInfo)
    : Type 0 where
  pub reports :
      (path : String) (s : S)
      → str_eq path "" ≡ false
      → IsInfo y (info_of s path) path (y.run "findmnt" (findmnt_args info_columns path) s).0
  pub reads : (path : String) (s : S) → (y.run "findmnt" (findmnt_args info_columns path) s).1 ≡ s
  pub mounts :
      (options : List String) (source path fs_type : String) (s s' : S) (text : String)
      → is_disk_type fs_type ≡ true
      → All (λ o. is_plain o ≡ true) options
      → run_command y "mount" (("-t" ∷ fs_type ∷ mount_options y options) ++ (source ∷ path ∷ [])) s
        ≡ (ok text, s')
      → (info : MountInfo) × (info_of s' path ≡ some info) × HasType fs_type info

module _ {S : Type 0} (y : System S) (info_of : S → String → Option MountInfo)
    (table : VolumeTable y info_of) where
  info_read :
      (o : Option MountInfo) (path : String) (out : Output) (s : S)
      → IsInfo y o path out
      → (lift (entries_of y.decode out) >>= read_mount y path >>= λ info. pure (some info)) s
        ≡ (answer_of o, s)
  unfolding entries_of find_mount
  info_read none path out s (e, failed, blank) = ground (arith, failed, blank)
  info_read (some info) path out s (x, fine, full, found, here, shared, same) =
      ground (arith, fine, full, found, here, shared, same)

  volume_read :
      (path : String) (s : S)
      → str_eq path "" ≡ false
      → (mount_info_of y path >>= λ info. pure (some info)) s ≡ (answer_of (info_of s path), s)
  unfolding mount_info_of findmnt
  volume_read path s full =
      let (out, t) = y.run "findmnt" (findmnt_args info_columns path) s in
      let read = info_read (info_of s path) path out s (table.reports path s full) in
      rw full (
        subst
          (λ z.
            (lift (entries_of y.decode out) >>= read_mount y path >>= λ info. pure (some info)) z
            ≡ (answer_of (info_of s path), s))
          (sym (table.reads path s)) read)

  -- The directory of a mount is made first.
  point_args :
      (path fs_type : String) (args : List String) (s t : S)
      → str_eq fs_type "" ≡ false
      → mount_point y path fs_type s ≡ (ok args, t)
      → args ≡ "-t" ∷ fs_type ∷ []
  unfolding mount_point
  point_args path fs_type args s t typed e =
      let (_, u, _, r) =
        bind-eq-ok (y.os.mkdir_all path) (λ z. pure ("-t" ∷ fs_type ∷ [])) s t args
          (rw typed at e) in
      ground (arith, r)

  disk_type-typed : (t : String) → is_disk_type t ≡ true → str_eq t "" ≡ false
  disk_type-typed t disk = elim (Bool-cases (str_eq t "")) [
    | inr typed ↦ typed
    | inl empty ↦ absurd (cc (subst (λ z. is_disk_type z ≡ true) ((eq_iff t "").0 empty) disk))
  ]

  volume_mounted :
      (source path fs_type : String) (options : List String) (s s' : S)
      → is_disk_type fs_type ≡ true
      → All (λ o. is_plain o ≡ true) options
      → mount_source y source path fs_type options s ≡ (ok tt, s')
      → (info : MountInfo) × (info_of s' path ≡ some info) × HasType fs_type info
  unfolding mount_source
  volume_mounted source path fs_type options s s' disk plain e =
      elim (Bool-cases (str_eq source "")) [
        | inl none' ↦ absurd (cc (rw none' at e))
        | inr a ↦ elim (Bool-cases (str_eq path "")) [
          | inl none' ↦ absurd (cc (rw (a, none') at e))
          | inr b ↦
              let rest = source ∷ path ∷ [] in
              let (args, t, e1, r) =
                bind-eq-ok (mount_point y path fs_type)
                  (λ args.
                    run_or_wrap y "mount" (args ++ mount_options y options ++ rest) >> pure tt)
                  s s' tt (rw (a, b) at e) in
              let (text, f) = ran y "mount" (args ++ mount_options y options ++ rest) t s' r in
              table.mounts options source path fs_type t s' text disk plain (
                subst
                  (λ l.
                    run_command y "mount" (l ++ mount_options y options ++ rest) t ≡ (ok text, s'))
                  (point_args path fs_type args s t (disk_type-typed fs_type disk) e1) f)
        ]
      ]

-- The Linux filesystem implements what staging relies on: where findmnt and mount keep their promises
-- about the table of mounts, a node server over it is one whose volumes are found as they were mounted.
linux_filesystem-HostVolumes :
    {S : Type 0} (m : LinuxFilesystem S) (n : Node S) (info_of : S → String → Option MountInfo)
    → VolumeTable m.system info_of
    → HostVolumes (over_linux m n) info_of
unfolding linux_filesystem
linux_filesystem-HostVolumes m n info_of table = record {
  asks = volume_read m.system info_of table;
  mounts = volume_mounted m.system info_of table;
}

-- A node server over the Linux filesystem: where findmnt and mount keep their promises about the mounts
-- of disks, a block-storage volume that was staged with ext2, ext3, ext4 or xfs, ext4 if no type was
-- asked for, and with flags that make no bind mount, move or remount nothing and leave the propagation
-- alone, is mounted at the staging path with that filesystem type; and where the disk of its id can then
-- be looked up without a change, staging it again succeeds and changes nothing.
pub linux_stage_idempotent :
    {S : Type 0} (m : LinuxFilesystem S) (n : Node S) (info_of : S → String → Option MountInfo)
    → VolumeTable m.system info_of
    → (req : StageRequest) (mnt : MountVolume) (device : String) (s s' : S) → IsBlockStage req mnt
    → device_by_id m.system req.volume_id s' ≡ (ok device, s')
    → node_stage_volume (over_linux m n) req s ≡ (ok tt, s')
    → ((info : MountInfo) × (info_of s' req.staging_target_path ≡ some info)
        × HasType (fs_type_or_default mnt.fs_type) info)
      × (node_stage_volume (over_linux m n) req s' ≡ (ok tt, s'))
unfolding linux_filesystem
linux_stage_idempotent m n info_of table req mnt device s s' is found e =
    node_stage_volume_idempotent (over_linux m n) info_of
      (linux_filesystem-HostVolumes m n info_of table) req mnt device s s' is found e
