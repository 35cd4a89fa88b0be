-- ===== src/Csi/NodeMessages.antt =====
-- The messages of the CSI node service, with the fields that the driver reads and writes.
use upcloud_csi.Base.{ℤ, Bool, Option, String, StringMap}
use upcloud_csi.Csi.{VolumeCapability}

pub record StageRequest : Type 0 where
  pub volume_id : String
  pub staging_target_path : String
  pub volume_capability : Option VolumeCapability
  pub volume_context : StringMap

pub record UnstageRequest : Type 0 where
  pub volume_id : String
  pub staging_target_path : String

pub record NodePublishRequest : Type 0 where
  pub volume_id : String
  pub staging_target_path : String
  pub target_path : String
  pub volume_capability : Option VolumeCapability
  pub readonly : Bool
  pub publish_context : StringMap

pub record NodeUnpublishRequest : Type 0 where
  pub volume_id : String
  pub target_path : String

pub record StatsRequest : Type 0 where
  pub volume_id : String
  pub volume_path : String

pub record NodeExpandRequest : Type 0 where
  pub volume_id : String
  pub volume_path : String
  pub volume_capability : Option VolumeCapability

pub data UsageUnit : Type 0 where
  bytes inodes : UsageUnit

pub record VolumeUsage : Type 0 where
  pub available : ℤ
  pub total : ℤ
  pub used : ℤ
  pub unit : UsageUnit

pub record NodeInfo : Type 0 where
  pub node_id : String
  pub max_volumes_per_node : ℤ
  pub accessible_topology : StringMap
