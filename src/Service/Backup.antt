-- ===== src/Service/Backup.antt =====
-- internal/service/upcloud_block_storage.go: the snapshots of `UpCloudService`, which the API calls
-- backups.
pub mod Laws
use upcloud_csi.Base.{◌&&◌, ◌||◌, not, List, [], ◌∷◌, String, str_eq, if◌then◌else◌, keep}
use upcloud_csi.Go.{
  Action, sentinel, plain, storage_not_found, backup_in_progress, pure, raise, ◌>>=◌, ◌>>◌,
}
use upcloud_csi.Api.{Storage, StorageDetails, backup, is_backup, is_backuping}
use upcloud_csi.Service.Client.{UpcloudService}
use upcloud_csi.Service.Block.{wait_for_storage_online, get_block_storage_by_uuid}

module _ {S : Type 0} (u : UpcloudService S) where
  unfoldable pub create_block_storage_backup : String → String → Action S StorageDetails
  unfolding wait_for_storage_online get_block_storage_by_uuid
  create_block_storage_backup uuid title = do
    storage ← get_block_storage_by_uuid u uuid
    if is_backuping storage.state then raise (sentinel backup_in_progress) else pure tt
    made ← u.client.create_backup uuid title
    wait_for_storage_online u made.uuid

  unfoldable pub list_block_storage_backups : String → Action S (List Storage)
  list_block_storage_backups origin = do
    storages ← u.client.get_storages backup
    pure (
        keep
          (λ b.
            (str_eq origin "" && not (str_eq b.origin ""))
            || (not (str_eq origin "") && str_eq b.origin origin))
          storages)

  unfoldable pub delete_block_storage_backup : String → Action S (Unit {0})
  delete_block_storage_backup uuid = do
    s ← u.client.get_storage_details uuid
    if is_backup s.storage_type
        then u.client.delete_storage s.uuid
        else raise (plain "unable to delete storage backup, it has an invalid type")

  -- The loop of `GetBlockStorageBackupByName`.
  pub first_titled : String → List Storage → Action S Storage
  first_titled name [] = raise (sentinel storage_not_found)
  first_titled name (s ∷ ss) = if str_eq s.title name then pure s else first_titled name ss

  unfoldable pub get_block_storage_backup_by_name : String → Action S Storage
  unfolding first_titled
  get_block_storage_backup_by_name name = do
    storages ← u.client.get_storages backup
    first_titled name storages
