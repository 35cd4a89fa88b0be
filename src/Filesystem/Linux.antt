-- ===== src/Filesystem/Linux.antt =====
-- `LinuxFilesystem`: the filesystem types it is set up with, the host, and the interface that it is
-- (internal/filesystem/linux_filesystem.go).
use upcloud_csi.Base.{some, List, ◌∷◌, map, String, ◌<>◌}
use upcloud_csi.Go.{Result, pure, ◌>>=◌}
use upcloud_csi.Filesystem.{Filesystem}
use upcloud_csi.Filesystem.System.{System}
use upcloud_csi.Filesystem.Disks.{check_tools_exists}
use upcloud_csi.Filesystem.Probes.{format_volume, get_device_last_partition}
use upcloud_csi.Filesystem.Mounts.{
  mount_source, unmount_target, is_target_mounted, mount_info_of, block_device_size,
  volume_statistics, device_by_id,
}
use upcloud_csi.Filesystem.Resize.{resize_volume}

pub record LinuxFilesystem (S : Type 0) : Type 0 where
  pub filesystem_types : List String
  pub system : System S

module _ {S : Type 0} where
  -- The filesystem, with the error of the check of the tools.
  unfoldable pub new_linux_filesystem :
      List String → System S → S → (LinuxFilesystem S) × Result (Unit {0}) × S
  new_linux_filesystem filesystem_types system s =
      let tools =
        "blkid"
        ∷ "parted"
        ∷ "sfdisk"
        ∷ "resize2fs"
        ∷ "xfs_growfs"
        ∷ "growpart"
        ∷ map (λ t. "mkfs." <> t) filesystem_types in
      let (checked, s') = check_tools_exists system tools s in
      (record { filesystem_types = filesystem_types; system = system }, checked, s')

  unfoldable pub linux_filesystem : LinuxFilesystem S → Filesystem S
  unfolding format_volume get_device_last_partition mount_source unmount_target is_target_mounted
      mount_info_of block_device_size volume_statistics device_by_id resize_volume
  linux_filesystem m = record {
    format = format_volume m.system m.filesystem_types;
    is_mounted = is_target_mounted m.system;
    get_mount_info = λ target. mount_info_of m.system target >>= λ info. pure (some info);
    get_block_device_size = block_device_size m.system;
    mount = mount_source m.system;
    unmount = unmount_target m.system;
    statistics = volume_statistics m.system;
    get_device_by_id = device_by_id m.system;
    get_device_last_partition = get_device_last_partition m.system;
    resize_volume = resize_volume m.system;
  }
