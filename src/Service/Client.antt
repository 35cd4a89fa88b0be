-- ===== src/Service/Client.antt =====
-- The UpCloud API client (`upCloudClient` in internal/service/upcloud_service.go), a parameter of
-- the model: the SDK implements it.
use upcloud_csi.Base.{ℤ, Bool, false, Option, none, some, List, String, ◌==◌}
use upcloud_csi.Go.{Action, Error, as_problem}
use upcloud_csi.Api.{
  Storage, StorageDetails, StorageType, CreateStorageRequest, CloneStorageRequest,
  ModifyStorageRequest, Server, ServerDetails, FileStorage, CreateFileStorageRequest,
  FileStorageNetwork, FileStorageShare, ShareAcl, Network,
}

-- The waits name no state: the driver waits for `online`, `started` and `running` only.
pub record Client (S : Type 0) : Type 0 where
  pub get_storages : StorageType → Action S (List Storage)
  pub get_storage_details : String → Action S StorageDetails
  -- The pointer that `GetStorageDetails` returns beside an error.
  pub details_beside_error : Error → Option StorageDetails
  pub create_storage : CreateStorageRequest → Action S StorageDetails
  pub clone_storage : CloneStorageRequest → Action S StorageDetails
  pub modify_storage : ModifyStorageRequest → Action S StorageDetails
  pub delete_storage : String → Action S (Unit {0})
  pub wait_for_storage_online : String → Action S StorageDetails
  -- Server, storage and address of the new device.
  pub attach_storage : String → String → String → Action S ServerDetails
  -- Server and address of the device.
  pub detach_storage : String → String → Action S ServerDetails
  -- The UUID of the backup that the resize makes.
  pub resize_storage_filesystem : String → Action S String
  pub create_backup : String → String → Action S StorageDetails
  pub wait_for_server_started : String → Action S ServerDetails
  pub get_servers : Action S (List Server)
  pub get_server_details : String → Action S ServerDetails
  pub get_file_storages : Action S (List FileStorage)
  pub get_file_storage : String → Action S FileStorage
  pub create_file_storage : CreateFileStorageRequest → Action S FileStorage
  pub delete_file_storage : String → Action S (Unit {0})
  pub modify_file_storage : String → ℤ → Action S FileStorage
  pub wait_for_file_storage_running : String → Action S FileStorage
  pub get_file_storage_networks : String → Action S (List FileStorageNetwork)
  pub get_file_storage_shares : String → Action S (List FileStorageShare)
  -- Service, share name, share path, access list.
  pub create_file_storage_share : String → String → String → List ShareAcl → Action S (Unit {0})
  pub create_file_storage_share_acl : String → String → ShareAcl → Action S (Unit {0})
  pub get_network_details : String → Action S Network
  pub get_networks : Action S (List Network)

-- `UpCloudService`: the client, and the mutex of each server. `lock` returns once it is held.
pub record UpcloudService (S : Type 0) : Type 0 where
  pub client : Client S
  pub lock : String → S → S
  pub unlock : String → S → S

-- `errors.As(err, &problem) && problem.Status == 404`
abbrev pub is_404 : Error → Bool
is_404 e = elim (as_problem e) [ none ↦ false | some p ↦ p.http_status == 404 ]
