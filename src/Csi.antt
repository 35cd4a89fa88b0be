-- ===== src/Csi.antt =====
-- The messages of the Container Storage Interface, with the fields that the driver reads and
-- writes. A nil message or an unset `oneof` is a value of its own.
pub mod NodeMessages
use upcloud_csi.Base.{ℕ, ℤ, Bool, true, false, Option, none, some, List, String, StringMap, ◌==◌}
use upcloud_csi.Go.Decimal.{Bytes}

pub data AccessMode : Type 0 where
  unknown single_node_writer single_node_reader_only multi_node_reader_only : AccessMode
  multi_node_single_writer multi_node_multi_writer : AccessMode
  other_mode : ℕ → AccessMode

abbrev pub is_single_node_writer : AccessMode → Bool
is_single_node_writer single_node_writer = true
is_single_node_writer _ = false

abbrev pub is_multi_node_multi_writer : AccessMode → Bool
is_multi_node_multi_writer multi_node_multi_writer = true
is_multi_node_multi_writer _ = false

abbrev pub same_mode : AccessMode → AccessMode → Bool
same_mode unknown unknown = true
same_mode single_node_writer single_node_writer = true
same_mode single_node_reader_only single_node_reader_only = true
same_mode multi_node_reader_only multi_node_reader_only = true
same_mode multi_node_single_writer multi_node_single_writer = true
same_mode multi_node_multi_writer multi_node_multi_writer = true
same_mode (other_mode m) (other_mode n) = m == n
same_mode _ _ = false

pub record MountVolume : Type 0 where
  pub fs_type : String
  pub mount_flags : List String

pub data AccessType : Type 0 where
  unset : AccessType
  block : AccessType
  mount : MountVolume → AccessType

pub record VolumeCapability : Type 0 where
  pub access_mode : Option AccessMode
  pub access_type : AccessType

-- `cap.GetAccessMode().GetMode()`: the zero value where the message is nil.
abbrev pub mode_of : VolumeCapability → AccessMode
mode_of cap = elim cap.access_mode [ none ↦ unknown | some m ↦ m ]

abbrev pub is_block : VolumeCapability → Bool
is_block cap = elim cap.access_type [ unset ↦ false | block ↦ true | mount m ↦ false ]

abbrev pub is_mount : VolumeCapability → Bool
is_mount cap = elim cap.access_type [ unset ↦ false | block ↦ false | mount m ↦ true ]

pub record CapacityRange : Type 0 where
  pub required_bytes : ℤ
  pub limit_bytes : ℤ

-- The source's message inside may be nil.
pub data ContentSource : Type 0 where
  snapshot : Option String → ContentSource
  volume : Option String → ContentSource
  no_source : ContentSource

-- A topology is its segments.
pub record CreateVolumeRequest : Type 0 where
  pub name : String
  pub capacity_range : Option CapacityRange
  pub volume_capabilities : List VolumeCapability
  pub parameters : StringMap
  pub volume_content_source : Option ContentSource
  pub requisite : Option (List StringMap)

pub record Volume : Type 0 where
  pub volume_id : String
  pub capacity_bytes : ℤ
  pub accessible_topology : List StringMap
  pub content_source : Option ContentSource
  pub volume_context : StringMap

pub record PublishRequest : Type 0 where
  pub volume_id : String
  pub node_id : String
  pub volume_capability : Option VolumeCapability
  pub readonly : Bool
  pub volume_context : StringMap

pub record UnpublishRequest : Type 0 where
  pub volume_id : String
  pub node_id : String

pub record ValidateRequest : Type 0 where
  pub volume_id : String
  pub volume_capabilities : List VolumeCapability

-- The capabilities that are confirmed, or the violations that the message lists.
pub data ValidateResponse : Type 0 where
  confirmed : List VolumeCapability → ValidateResponse
  unsupported : List String → ValidateResponse

pub record ListRequest : Type 0 where
  pub starting_token : Bytes
  pub max_entries : ℤ

-- An id with its capacity in bytes.
pub record VolumeEntry : Type 0 where
  pub volume_id : String
  pub capacity_bytes : ℤ

pub record ListVolumesResponse : Type 0 where
  pub entries : List VolumeEntry
  pub next_token : Bytes

pub record ExpandRequest : Type 0 where
  pub volume_id : String
  pub capacity_range : Option CapacityRange
  pub volume_capability : Option VolumeCapability

pub record ExpandResponse : Type 0 where
  pub capacity_bytes : ℤ
  pub node_expansion_required : Bool

pub record CreateSnapshotRequest : Type 0 where
  pub name : String
  pub source_volume_id : String

pub record Snapshot : Type 0 where
  pub size_bytes : ℤ
  pub snapshot_id : String
  pub source_volume_id : String
  pub creation_time : ℕ
  pub ready_to_use : Bool

pub record ListSnapshotsRequest : Type 0 where
  pub starting_token : Bytes
  pub max_entries : ℤ
  pub source_volume_id : String
  pub snapshot_id : String

pub record ListSnapshotsResponse : Type 0 where
  pub entries : List Snapshot
  pub next_token : Bytes
