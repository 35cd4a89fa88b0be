-- ===== src/Service/Block.antt =====
-- internal/service/upcloud_block_storage.go: block storage of `UpCloudService`.
pub mod Locking
pub mod Attachments
pub mod Lookup
use upcloud_csi.Base.{
  ℤ, Bool, true, false, ◌&&◌, Option, none, some, List, [], ◌∷◌, String, str_eq, starts_with,
  if◌then◌else◌, keep,
}
use upcloud_csi.Go.{
  Action, Error, sentinel, wrap, plain, storage_not_found, server_storage_not_found, pure, raise,
  catch, map_error, ◌>>=◌, ◌>>◌,
}
use upcloud_csi.Api.{
  Label, Storage, StorageDetails, StorageDevice, normal, is_online, is_normal, CreateStorageRequest,
  CloneStorageRequest,
}
use upcloud_csi.Service.Client.{UpcloudService, is_404}

abbrev pub block_storage_uuid_prefix : String
block_storage_uuid_prefix = "01"

-- `uuid.Parse` of github.com/google/uuid is the parameter `parses`.
unfoldable pub is_valid_block_storage_uuid : (String → Bool) → String → Bool
is_valid_block_storage_uuid parses s =
    if parses s then starts_with s block_storage_uuid_prefix else false

-- The `Storage` with a 404 read as the sentinel.
abbrev not_found_as : Error → Error → Error
not_found_as replacement e = if is_404 e then replacement else e

-- `details.StorageDevices` has the storage.
abbrev pub has_device : String → List StorageDevice → Bool
has_device storage [] = false
has_device storage (d ∷ ds) = if str_eq storage d.uuid then true else has_device storage ds

module _ {S : Type 0} (u : UpcloudService S) where
  unfoldable pub wait_for_storage_online : String → Action S StorageDetails
  wait_for_storage_online uuid = u.client.wait_for_storage_online uuid

  unfoldable pub wait_for_server_online : String → Action S (Unit {0})
  wait_for_server_online uuid = do u.client.wait_for_server_started uuid; pure tt

  unfoldable pub get_block_storage_by_uuid : String → Action S StorageDetails
  get_block_storage_by_uuid uuid =
      map_error (not_found_as (sentinel storage_not_found)) (u.client.get_storage_details uuid)

  -- `sd, _ := GetStorageDetails(…)`: the error is dropped, and `sd` is what comes beside it.
  details_or_beside : String → Action S (Option StorageDetails)
  details_or_beside uuid =
      catch (do d ← u.client.get_storage_details uuid; pure (some d))
        (λ e. pure (u.client.details_beside_error e))

  -- The loop of `GetBlockStorageByName`.
  titled : String → List Storage → Action S (List (Option StorageDetails))
  titled name [] = pure []
  titled name (s ∷ ss) =
      let rest = titled name ss in
      if str_eq s.title name
      then (do sd ← details_or_beside s.uuid; volumes ← rest; pure (sd ∷ volumes))
      else rest

  unfoldable pub get_block_storage_by_name : String → Action S (List (Option StorageDetails))
  unfolding titled details_or_beside
  get_block_storage_by_name name = do storages ← u.client.get_storages normal; titled name storages

  unfoldable pub create_block_storage : CreateStorageRequest → Action S StorageDetails
  unfolding wait_for_storage_online
  create_block_storage csr = do s ← u.client.create_storage csr; wait_for_storage_online s.uuid

  -- `len(label) > 0`
  label_clone : List Label → StorageDetails → Action S StorageDetails
  label_clone [] s = pure s
  label_clone (l ∷ ls) s = do
    modified ←
        u.client.modify_storage (record { uuid = s.uuid; size = none; labels = some (l ∷ ls) })
    wait_for_storage_online modified.uuid

  unfoldable pub clone_block_storage : CloneStorageRequest → List Label → Action S StorageDetails
  unfolding wait_for_storage_online label_clone
  clone_block_storage r label = do
    s ← u.client.clone_storage r
    s' ← wait_for_storage_online s.uuid
    label_clone label s'

  unfoldable pub delete_block_storage : String → Action S (Unit {0})
  delete_block_storage uuid =
      map_error (not_found_as (sentinel storage_not_found)) (u.client.delete_storage uuid)

  -- `mutex.Lock(); defer mutex.Unlock()`: the mutex is given back however the body ends.
  unfoldable pub with_node_lock : {A : Type 0} → String → Action S A → Action S A
  with_node_lock server body s = let (r, s') = body (u.lock server s) in (r, u.unlock server s')

  -- The part of `AttachBlockStorage` under the mutex.
  unfoldable pub attach_locked : String → String → Action S (Unit {0})
  unfolding wait_for_server_online
  attach_locked storage server = do
    map_error wrap (wait_for_server_online server)
    details ← u.client.attach_storage server storage "virtio"
    if has_device storage details.storage_devices
        then wait_for_server_online server
        else raise (plain "storage device not found after attaching to server")

  unfoldable pub attach_block_storage : String → String → Action S (Unit {0})
  unfolding with_node_lock attach_locked
  attach_block_storage storage server = with_node_lock server (attach_locked storage server)

  -- The loop over `sd.StorageDevices` of `DetachBlockStorage`.
  detach_device : String → String → List StorageDevice → Action S (Unit {0})
  detach_device storage server [] = raise (sentinel server_storage_not_found)
  detach_device storage server (device ∷ devices) =
      let rest = detach_device storage server devices in
      if str_eq device.uuid storage
      then (do
        details ← u.client.detach_storage server device.address
        if has_device storage details.storage_devices
            then raise (plain "storage device still attached")
            else wait_for_server_online server)
      else rest

  -- The part of `DetachBlockStorage` under the mutex.
  unfoldable pub detach_locked : String → String → Action S (Unit {0})
  unfolding wait_for_server_online detach_device
  detach_locked storage server = do
    sd ← u.client.get_server_details server
    if sd.is_started then pure tt else map_error wrap (wait_for_server_online server)
    detach_device storage server sd.storage_devices

  unfoldable pub detach_block_storage : String → String → Action S (Unit {0})
  unfolding with_node_lock detach_locked
  detach_block_storage storage server = with_node_lock server (detach_locked storage server)

  unfoldable pub list_block_storage : String → Action S (List Storage)
  list_block_storage zone = do
    storages ← u.client.get_storages normal
    pure (keep (λ s. str_eq s.zone zone && is_normal s.storage_type) storages)

  unfoldable pub resize_block_storage : String → ℤ → Bool → Action S StorageDetails
  unfolding wait_for_storage_online
  resize_block_storage uuid new_size delete_backup = do
    storage ← u.client.modify_storage (record { uuid = uuid; size = some new_size; labels = none })
    wait_for_storage_online storage.uuid
    backup ← u.client.resize_storage_filesystem uuid
    if delete_backup then u.client.delete_storage backup else pure tt
    wait_for_storage_online storage.uuid

  unfoldable pub resize_block_device : String → ℤ → Action S StorageDetails
  unfolding wait_for_storage_online
  resize_block_device uuid new_size = do
    storage ← u.client.modify_storage (record { uuid = uuid; size = some new_size; labels = none })
    wait_for_storage_online storage.uuid

  unfoldable pub require_block_storage_online : Storage → Action S (Unit {0})
  unfolding wait_for_storage_online
  require_block_storage_online s =
      if is_online s.state then pure tt else (do wait_for_storage_online s.uuid; pure tt)
