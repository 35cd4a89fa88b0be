-- ===== src/Service.antt =====
-- The interface between the RPC handlers and the UpCloud API (internal/service/service.go).
pub mod Client
pub mod Block
pub mod Backup
pub mod File
pub mod Upcloud
pub mod Metrics
pub mod NodeSync
use upcloud_csi.Base.{ℤ, Bool, Option, List, String}
use upcloud_csi.Go.{Action}
use upcloud_csi.Api.{
  Label, Storage, StorageDetails, CreateStorageRequest, CloneStorageRequest, ServerDetails,
  FileStorage, FileStorageNetwork, Network,
}

pub record NetworkRef : Type 0 where
  pub uuid : String
  pub name : String
  pub zone : String

-- `Service`: every method over a state `S` of the world. The pointers that `GetBlockStorageByName`
-- returns may be nil.
pub record Service (S : Type 0) : Type 0 where
  pub get_block_storage_by_uuid : String → Action S StorageDetails
  pub get_block_storage_by_name : String → Action S (List (Option StorageDetails))
  pub list_block_storage : String → Action S (List Storage)
  pub create_block_storage : CreateStorageRequest → Action S StorageDetails
  pub clone_block_storage : CloneStorageRequest → List Label → Action S StorageDetails
  pub delete_block_storage : String → Action S (Unit {0})
  pub attach_block_storage : String → String → Action S (Unit {0})
  pub detach_block_storage : String → String → Action S (Unit {0})
  pub resize_block_storage : String → ℤ → Bool → Action S StorageDetails
  pub resize_block_device : String → ℤ → Action S StorageDetails
  pub require_block_storage_online : Storage → Action S (Unit {0})
  pub get_block_storage_backup_by_name : String → Action S Storage
  pub list_block_storage_backups : String → Action S (List Storage)
  pub create_block_storage_backup : String → String → Action S StorageDetails
  pub delete_block_storage_backup : String → Action S (Unit {0})
  pub get_file_storage_by_uuid : String → Action S FileStorage
  pub get_file_storages : Action S (List FileStorage)
  pub delete_file_storage : String → Action S (Unit {0})
  pub modify_file_storage : String → ℤ → Action S FileStorage
  pub create_file_storage : String → NetworkRef → ℤ → Bool → Action S FileStorage
  pub create_file_storage_share_acl : String → String → Action S (Unit {0})
  pub get_file_storage_networks : String → Action S (List FileStorageNetwork)
  pub get_network_details : String → Action S Network
  pub get_networks : Action S (List Network)
  pub get_server_by_hostname : String → Action S ServerDetails
