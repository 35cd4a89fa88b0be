-- ===== src/Filesystem.antt =====
-- The interface of the node server to the filesystems of its host
-- (internal/filesystem/filesystem.go).
pub mod System
pub mod Disks
pub mod Probes
pub mod Mounts
pub mod Resize
pub mod Linux
pub mod Tools
pub mod Partitioned
pub mod Idempotent
pub mod Success
pub mod Scan
pub mod Wait
pub mod Readings
pub mod Growth
use upcloud_csi.Base.{ℤ, Bool, Option, List, String}
use upcloud_csi.Go.{Action}

pub record VolumeStatistics : Type 0 where
  pub available_bytes : ℤ
  pub total_bytes : ℤ
  pub used_bytes : ℤ
  pub available_inodes : ℤ
  pub total_inodes : ℤ
  pub used_inodes : ℤ

pub record MountInfo : Type 0 where
  pub source : String
  pub fs_type : String
  pub options : String

-- The pointer that `GetMountInfo` returns may be nil; beside an error it is.
pub record Filesystem (S : Type 0) : Type 0 where
  -- source, filesystem type, arguments of mkfs
  pub format : String → String → List String → Action S (Unit {0})
  pub is_mounted : String → Action S Bool
  pub get_mount_info : String → Action S (Option MountInfo)
  pub get_block_device_size : String → Action S ℤ
  -- source, target, filesystem type, options
  pub mount : String → String → String → List String → Action S (Unit {0})
  pub unmount : String → Action S (Unit {0})
  pub statistics : String → Action S VolumeStatistics
  pub get_device_by_id : String → Action S String
  pub get_device_last_partition : String → Action S String
  -- source, volume path
  pub resize_volume : String → String → Action S (Unit {0})
