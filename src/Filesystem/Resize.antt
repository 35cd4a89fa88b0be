-- ===== src/Filesystem/Resize.antt =====
-- Growing a partition and its filesystem (internal/filesystem/linux_filesystem.go).
use upcloud_csi.Base.{
  Bool, ◌&&◌, ◌||◌, none, some, List, [], ◌∷◌, String, str_eq, leb, if◌then◌else◌,
}
use upcloud_csi.Go.{Action, ok, err, wrap, plain, pure, raise, map_error, ◌>>=◌, ◌>>◌}
use upcloud_csi.Go.Text.{trim_space, to_lower, contains}
use upcloud_csi.Filesystem.System.{System, run_or_wrap}
use upcloud_csi.Filesystem.Probes.{get_device_last_partition}
use Prim.Native.Char.{Char, code}

abbrev pub is_digit : Char → Bool
is_digit c = leb 48 (code c) && leb (code c) 57

-- The characters of a text in front of `cs`, the last one first.
abbrev pub reverse_onto : String → List Char → List Char
reverse_onto String.[] cs = cs
reverse_onto (String.◌∷◌ c s) cs = reverse_onto s (c ∷ cs)

-- The loop from the last character, which leaves at one that is no digit.
abbrev pub last_digits : List Char → String → String
last_digits [] kept = kept
last_digits (c ∷ cs) kept = if is_digit c then last_digits cs (String.◌∷◌ c kept) else kept

unfoldable pub extract_partition_number : String → String
extract_partition_number partition = last_digits (reverse_onto partition []) ""

abbrev pub detect_args : String → List String
detect_args partition = "--probe" ∷ "--output" ∷ "value" ∷ "--match-tag" ∷ "TYPE" ∷ partition ∷ []

module _ {S : Type 0} (y : System S) where
  -- A partition that fills its disk is no error.
  unfoldable pub resize_partition : String → String → Action S (Unit {0})
  resize_partition device part_num s =
      let (out, s') = y.run "growpart" (device ∷ part_num ∷ []) s in
      elim out.failure [
        | none ↦ (ok tt, s')
        | some e ↦ if contains out.text "NOCHANGE" then (ok tt, s') else (err (wrap e), s')
      ]

  unfoldable pub detect_filesystem_type : String → Action S String
  detect_filesystem_type partition = do
    output ← run_or_wrap y "blkid" (detect_args partition)
    if str_eq (trim_space output) ""
        then raise (plain "no filesystem detected")
        else pure (to_lower (trim_space output))

  unfoldable pub resize_ext_filesystem : String → Action S (Unit {0})
  resize_ext_filesystem partition = run_or_wrap y "resize2fs" (partition ∷ []) >> pure tt

  unfoldable pub resize_xfs_filesystem : String → Action S (Unit {0})
  resize_xfs_filesystem mount_point = run_or_wrap y "xfs_growfs" (mount_point ∷ []) >> pure tt

  -- The tool that grows a filesystem of the type.
  unfoldable pub resize_filesystem : String → String → String → Action S (Unit {0})
  unfolding resize_ext_filesystem resize_xfs_filesystem
  resize_filesystem fs_type partition volume_path =
      if str_eq fs_type "ext2" || str_eq fs_type "ext3" || str_eq fs_type "ext4"
      then map_error wrap (resize_ext_filesystem partition)
      else if str_eq fs_type "xfs"
      then map_error wrap (resize_xfs_filesystem volume_path)
      else raise (plain "unsupported filesystem type for resize")

  unfoldable pub resize_listed : String → String → String → Action S (Unit {0})
  unfolding resize_partition detect_filesystem_type resize_filesystem extract_partition_number
  resize_listed source volume_path partition = do
    if str_eq (extract_partition_number partition) ""
        then raise (plain "failed to extract partition number")
        else pure tt
    map_error wrap (resize_partition source (extract_partition_number partition))
    fs_type ← map_error wrap (detect_filesystem_type partition)
    resize_filesystem fs_type partition volume_path

  unfoldable pub resize_volume : String → String → Action S (Unit {0})
  unfolding resize_listed get_device_last_partition
  resize_volume source volume_path =
      map_error wrap (get_device_last_partition y source) >>= resize_listed source volume_path
