-- ===== src/Api.antt =====
-- The data of the UpCloud API that the driver reads and sends: of each SDK type the fields that
-- internal/service and internal/controller use. Sizes are Go `int`s, in GiB.
use upcloud_csi.Base.{ℕ, ℤ, Bool, true, false, Option, List, String}

pub record Label : Type 0 where
  pub key : String
  pub value : String

pub data StorageType : Type 0 where
  normal backup file : StorageType
  other_type : String → StorageType

pub data StorageState : Type 0 where
  online backuping : StorageState
  other_state : String → StorageState

abbrev pub is_online : StorageState → Bool
is_online online = true
is_online backuping = false
is_online (other_state s) = false

abbrev pub is_backuping : StorageState → Bool
is_backuping backuping = true
is_backuping online = false
is_backuping (other_state s) = false

abbrev pub is_backup : StorageType → Bool
is_backup backup = true
is_backup normal = false
is_backup file = false
is_backup (other_type s) = false

abbrev pub is_normal : StorageType → Bool
is_normal normal = true
is_normal backup = false
is_normal file = false
is_normal (other_type s) = false

pub record Storage : Type 0 where
  pub uuid : String
  pub size : ℤ
  pub title : String
  pub zone : String
  pub storage_type : StorageType
  pub state : StorageState
  pub origin : String
  pub created : ℕ
  pub encrypted : Bool

pub record StorageDetails : Type 0 where
  pub storage : Storage
  pub open storage use *
  pub server_uuids : List String

pub record CreateStorageRequest : Type 0 where
  pub zone : String
  pub title : String
  pub size : ℤ
  pub tier : String
  pub labels : List Label
  pub encrypted : Bool

pub record CloneStorageRequest : Type 0 where
  pub uuid : String
  pub zone : String
  pub tier : String
  pub title : String
  pub encrypted : Bool

-- A field that the request leaves out is `none`.
pub record ModifyStorageRequest : Type 0 where
  pub uuid : String
  pub size : Option ℤ
  pub labels : Option (List Label)

pub record StorageDevice : Type 0 where
  pub uuid : String
  pub address : String

pub record Interface : Type 0 where
  pub is_private : Bool
  pub network : String

pub record Server : Type 0 where
  pub uuid : String
  pub hostname : String

pub record ServerDetails : Type 0 where
  pub uuid : String
  pub zone : String
  pub is_started : Bool
  pub storage_devices : List StorageDevice
  pub interfaces : List Interface

pub record FileStorageNetwork : Type 0 where
  pub uuid : String
  pub name : String
  pub family : String
  pub ip_address : String

pub record FileStorage : Type 0 where
  pub uuid : String
  pub name : String
  pub zone : String
  pub size_gib : ℤ
  pub networks : List FileStorageNetwork

pub record CreateFileStorageRequest : Type 0 where
  pub name : String
  pub zone : String
  pub size_gib : ℤ
  pub encrypted : Bool
  pub networks : List FileStorageNetwork

pub record FileStorageShare : Type 0 where
  pub name : String
  pub path : String

pub record ShareAcl : Type 0 where
  pub name : String
  pub target : String
  pub read_write : Bool

pub record Network : Type 0 where
  pub uuid : String
  pub name : String
