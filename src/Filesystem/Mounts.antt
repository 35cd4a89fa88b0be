-- ===== src/Filesystem/Mounts.antt =====
-- Mounts, and what is read of a mounted volume or a device (internal/filesystem/linux_filesystem.go).
use upcloud_csi.Base.{
  ℕ, ℤ, pos, ◌+◌, ◌*ℤ◌, wrap64, sub_ℕ, pos_part, neg_part, not, Bool, true, false, Option, none,
  some, List, [], ◌∷◌, ◌++◌, String, str_eq, if◌then◌else◌,
}
use upcloud_csi.Go.{
  Action, Result, ok, err, panic, sentinel, wrap, plain, not_mounted, is_not_exist, pure, raise,
  lift, catch, map_error, attempt, ◌>>=◌, ◌>>◌,
}
use upcloud_csi.Go.Text.{trim_space, join}
use upcloud_csi.Filesystem.{MountInfo, VolumeStatistics}
use upcloud_csi.Filesystem.System.{System, Output, MountEntry, Statfs, run_or_wrap, run_no_output}
use upcloud_csi.Filesystem.Disks.{
  create_block_device, volume_id_to_disk_id, get_block_device_by_disk_id,
}

-- The answer of findmnt: nothing for no mount, or the entries; the JSON `null` is a nil pointer,
-- whose `FileSystems` cannot be read.
unfoldable pub entries_of :
    (String → Option (Option (List MountEntry))) → Output → Result (Option (List MountEntry))
entries_of decode out = elim out.failure [
  | some e ↦ if str_eq (trim_space out.text) "" then ok none else err (wrap e)
  | none ↦ if str_eq out.text "" then ok none else elim (decode out.text) [
    | none ↦ err (wrap (plain "couldn't unmarshal data"))
    | some none ↦ panic
    | some (some entries) ↦ ok (some entries)
  ]
]

abbrev pub findmnt_args : String → String → List String
findmnt_args columns target = "-o" ∷ columns ∷ "-M" ∷ target ∷ "-J" ∷ []

-- The error comes with `true`, which callers that look at the error do not read.
unfoldable pub is_target_shared : String → Bool → List MountEntry → Result Bool
is_target_shared target found [] = ok found
is_target_shared target found (x ∷ xs) =
    let rest = is_target_shared target (if str_eq x.target target then true else found) xs in
    if str_eq x.propagation "shared" then rest else err (plain "mount propagation is not enabled")

unfoldable pub find_mount : String → List MountEntry → Result MountInfo
find_mount target [] = err (sentinel not_mounted)
find_mount target (x ∷ xs) =
    let rest = find_mount target xs in
    if str_eq x.target target
    then (if str_eq x.propagation "shared"
        then ok (record { source = x.source; fs_type = x.fs_type; options = x.options })
        else err (plain "mount propagation is not enabled"))
    else rest

-- A 64-bit pattern as an `int64`.
int64 : ℕ → ℤ
int64 n = wrap64 (pos n)

minus : ℤ → ℤ → ℤ
minus a b = wrap64 (sub_ℕ (pos_part a + neg_part b) (neg_part a + pos_part b))

-- `filesystemStatistics` of the figures that `statfs` gives, in `int64`.
unfoldable pub statistics_of : Statfs → VolumeStatistics
unfolding int64 minus
statistics_of st = record {
  available_bytes = wrap64 (int64 st.bavail *ℤ int64 st.bsize);
  total_bytes = wrap64 (int64 st.blocks *ℤ int64 st.bsize);
  used_bytes = wrap64 (minus (int64 st.blocks) (int64 st.bfree) *ℤ int64 st.bsize);
  available_inodes = int64 st.ffree;
  total_inodes = int64 st.files;
  used_inodes = minus (int64 st.files) (int64 st.ffree);
}

module _ {S : Type 0} (y : System S) where
  -- The target is made a file for a device, and a directory for a filesystem.
  unfoldable pub mount_point : String → String → Action S (List String)
  unfolding create_block_device
  mount_point target fs_type =
      if str_eq fs_type ""
      then (create_block_device y target >> pure [])
      else (y.os.mkdir_all target >> pure ("-t" ∷ fs_type ∷ []))

  abbrev pub mount_options : List String → List String
  mount_options [] = []
  mount_options (x ∷ xs) = "-o" ∷ join "," (x ∷ xs) ∷ []

  unfoldable pub mount_source : String → String → String → List String → Action S (Unit {0})
  unfolding mount_point
  mount_source source target fs_type options =
      if str_eq source ""
      then raise (plain "source is not specified for mounting the volume")
      else if str_eq target ""
      then raise (plain "target is not specified for mounting the volume")
      else (do
        args ← mount_point target fs_type
        run_or_wrap y "mount" (args ++ mount_options options ++ (source ∷ target ∷ []))
        pure tt)

  -- Whether `os.Stat` finds the path, or fails otherwise than by its absence.
  abbrev pub stat_there : String → Action S Bool
  stat_there target = catch (y.os.stat target >> pure true) (λ e. pure (not (is_not_exist e)))

  unfoldable pub unmount_target : String → Action S (Unit {0})
  unmount_target target =
      if str_eq target ""
      then raise (plain "target is not specified for unmounting the volume")
      else (do
        there ← stat_there target
        if there then run_no_output y "umount" (target ∷ []) else pure tt)

  unfoldable pub findmnt : String → String → Action S (Option (List MountEntry))
  unfolding entries_of
  findmnt columns target s =
      let (out, s') = y.run "findmnt" (findmnt_args columns target) s in
      (entries_of y.decode out, s')

  abbrev pub read_entries : String → Option (List MountEntry) → Action S Bool
  read_entries target none = pure false
  read_entries target (some entries) = lift (is_target_shared target false entries)

  unfoldable pub is_target_mounted : String → Action S Bool
  unfolding findmnt is_target_shared
  is_target_mounted target =
      if str_eq target ""
      then raise (plain "target is not specified for checking the mount")
      else (findmnt "TARGET,PROPAGATION,FSTYPE,OPTIONS" target >>= read_entries target)

  abbrev pub read_mount : String → Option (List MountEntry) → Action S MountInfo
  read_mount target none = raise (sentinel not_mounted)
  read_mount target (some entries) = lift (find_mount target entries)

  unfoldable pub mount_info_of : String → Action S MountInfo
  unfolding findmnt find_mount
  mount_info_of target =
      if str_eq target ""
      then raise (plain "target is not specified for checking the mount")
      else (findmnt "SOURCE,TARGET,PROPAGATION,FSTYPE,OPTIONS" target >>= read_mount target)

  -- A device that is open is closed on an error too.
  unfoldable pub block_device_size : String → Action S ℤ
  unfolding int64
  block_device_size device_path = do
    fd ← map_error wrap (y.open_device device_path)
    size ← catch (y.device_size fd) (λ e. attempt (y.close_device fd) >> raise (wrap e))
    map_error wrap (y.close_device fd)
    pure (int64 size)

  unfoldable pub volume_statistics : String → Action S VolumeStatistics
  unfolding statistics_of
  volume_statistics volume_path = do st ← y.statfs volume_path; pure (statistics_of st)

  unfoldable pub device_by_id : String → Action S String
  unfolding volume_id_to_disk_id get_block_device_by_disk_id
  device_by_id id = do
    disk_id ← lift (volume_id_to_disk_id id)
    get_block_device_by_disk_id y disk_id
