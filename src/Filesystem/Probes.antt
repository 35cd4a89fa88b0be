-- ===== src/Filesystem/Probes.antt =====
-- Formatting a disk (internal/filesystem/linux_filesystem.go): a partition table, a partition and a
-- filesystem, each made where a probe does not find it.
use upcloud_csi.Base.{
  pos, Bool, false, ◌||◌, Option, none, some, List, [], ◌∷◌, ◌++◌, String, ◌<>◌, str_eq, eqb_ℤ,
  if◌then◌else◌,
}
use upcloud_csi.Go.{Action, Error, wrap, plain, pure, raise, lift, catch, ◌>>=◌, ◌>>◌}
use upcloud_csi.Go.Text.{trim_space, to_lower}
use upcloud_csi.Filesystem.System.{System, run_or_wrap, run_command}
use upcloud_csi.Filesystem.Disks.{sfdisk_output_get_last_partition, cmd_exit_code}

abbrev pub partition_table_type : String
partition_table_type = "gpt"

-- The arguments of blkid that read a tag of a device, past its cache, if it has the value.
abbrev pub probe_args : String → String → String → List String
probe_args tag value device =
    "--probe"
    ∷ "--output"
    ∷ "value"
    ∷ "--match-tag"
    ∷ tag
    ∷ "--match-token"
    ∷ (tag <> ("=" <> value))
    ∷ device
    ∷ []

abbrev pub list_args : String → List String
list_args device = "-q" ∷ "--list" ∷ "-o" ∷ "device" ∷ device ∷ []

abbrev pub mkpart_args : String → List String
mkpart_args device = "-a" ∷ "opt" ∷ device ∷ "mkpart" ∷ "primary" ∷ "2048s" ∷ "100%" ∷ []

-- The exit status 2 of blkid says that nothing was found.
abbrev pub probe_failure : {S : Type 0} → Error → Action S (Option String)
probe_failure e = if eqb_ℤ (cmd_exit_code e) (pos 2) then pure none else raise (wrap e)

unfoldable pub is_supported_filesystem : List String → String → Bool
is_supported_filesystem [] fs_type = false
is_supported_filesystem (x ∷ xs) fs_type = str_eq x fs_type || is_supported_filesystem xs fs_type

module _ {S : Type 0} (y : System S) where
  -- Whether blkid finds the value.
  unfoldable pub probe : String → String → String → Action S Bool
  unfolding cmd_exit_code
  probe tag value device = do
    output ←
        catch (run_command y "blkid" (probe_args tag value device) >>= λ text. pure (some text))
          probe_failure
    pure (elim output [ none ↦ false | some text ↦ str_eq (trim_space (to_lower text)) value ])

  unfoldable pub has_partition_table : String → Action S Bool
  unfolding probe
  has_partition_table device =
      if str_eq device ""
      then raise (plain "source is not specified")
      else probe "PTTYPE" partition_table_type device

  unfoldable pub filesystem_exists : String → String → Action S Bool
  unfolding probe
  filesystem_exists partition fs_type =
      if str_eq partition ""
      then raise (plain "partition is not specified")
      else probe "TYPE" fs_type partition

  abbrev pub make_table : String → Bool → Action S (Unit {0})
  make_table device found =
      if found
      then pure tt
      else (run_or_wrap y "parted" (device ∷ "mklabel" ∷ "gpt" ∷ []) >> pure tt)

  unfoldable pub create_partition_table_if_not_exists : String → Action S (Unit {0})
  unfolding has_partition_table
  create_partition_table_if_not_exists device = has_partition_table device >>= make_table device

  unfoldable pub get_device_last_partition : String → Action S String
  unfolding sfdisk_output_get_last_partition
  get_device_last_partition device = do
    output ← run_or_wrap y "sfdisk" (list_args device)
    lift (sfdisk_output_get_last_partition device output)

  -- Any error of the first listing is taken for a disk without a partition.
  unfoldable pub create_partition_if_not_exists : String → Action S String
  unfolding get_device_last_partition
  create_partition_if_not_exists device =
      catch (get_device_last_partition device)
        (λ e. run_or_wrap y "parted" (mkpart_args device) >> get_device_last_partition device)

  abbrev pub make_filesystem : String → String → List String → Bool → Action S (Unit {0})
  make_filesystem partition fs_type mkfs_args found =
      if found
      then pure tt
      else (run_or_wrap y ("mkfs." <> fs_type) (mkfs_args ++ (partition ∷ [])) >> pure tt)

  unfoldable pub create_filesystem_if_not_exists :
      String → String → List String → Action S (Unit {0})
  unfolding filesystem_exists
  create_filesystem_if_not_exists partition fs_type mkfs_args =
      filesystem_exists partition fs_type >>= make_filesystem partition fs_type mkfs_args

  abbrev pub format_disk : String → String → List String → Action S (Unit {0})
  format_disk source fs_type mkfs_args = do
    create_partition_table_if_not_exists source
    partition ← create_partition_if_not_exists source
    create_filesystem_if_not_exists partition fs_type mkfs_args

  -- The first argument holds the filesystem types that the driver is set up with.
  unfoldable pub format_volume : List String → String → String → List String → Action S (Unit {0})
  unfolding is_supported_filesystem create_partition_table_if_not_exists
      create_partition_if_not_exists create_filesystem_if_not_exists
  format_volume types source fs_type mkfs_args =
      if str_eq fs_type ""
      then raise (plain "fs type is not specified for formatting the volume")
      else if str_eq source ""
      then raise (plain "source is not specified for formatting the volume")
      else if is_supported_filesystem types (to_lower fs_type)
      then format_disk source (to_lower fs_type) mkfs_args
      else raise (plain "filesystem type is not supported")
