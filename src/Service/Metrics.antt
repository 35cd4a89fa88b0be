-- ===== src/Service/Metrics.antt =====
-- internal/service/metrics.go: a `Service` that counts and times the calls of another one. The counter
-- and the histogram are those of Prometheus, as what was counted and observed so far.
pub mod Transparent
use upcloud_csi.Base.{
  ℕ, suc, ◌+◌, ◌-◌, List, ◌∷◌, ◌≡◌, refl, Bool, true, false, ◌&&◌, String, str_eq, eq_iff, arith,
  if◌then◌else◌,
}
use upcloud_csi.Go.{Action, Result, ok, err, panic}
use upcloud_csi.Service.{Service}

-- The counter of requests, by method and result.
abbrev pub Requests : Type 0
Requests = String → String → ℕ

-- The histogram's observations, by method, the last one first.
abbrev pub Durations : Type 0
Durations = String → List ℕ

-- The world with its clock, and the two metrics.
pub record Instrumented (S : Type 0) : Type 0 where
  pub world : S
  pub clock : S → ℕ
  pub requests : Requests
  pub durations : Durations

unfoldable pub record_call : String → String → Requests → Requests
record_call method result requests m r =
    if str_eq m method && str_eq r result then suc (requests m r) else requests m r

unfoldable pub observe : String → ℕ → Durations → Durations
observe method d durations m = if str_eq m method then d ∷ durations m else durations m

-- What `record` is called with; a panic passes it by.
abbrev pub recorded {ℓ} : {A : Type ℓ} → String → Result A → Requests → Requests
recorded method (ok a) requests = record_call method "success" requests
recorded method (err e) requests = record_call method "error" requests
recorded method panic requests = requests

abbrev pub timed {ℓ} : {A : Type ℓ} → String → ℕ → Result A → Durations → Durations
timed method d (ok a) durations = observe method d durations
timed method d (err e) durations = observe method d durations
timed method d panic durations = durations

module _ {S : Type 0} where
  unfoldable pub instrument : {A : Type 0} → String → Action S A → Action (Instrumented S) A
  unfolding record_call observe
  instrument method m s =
      let start = s.clock s.world in
      let (r, w) = m s.world in
      (
        r,
        record s {
          world = w;
          requests = recorded method r s.requests;
          durations = timed method (s.clock w - start) r s.durations;
        },
      )

  unfoldable pub instrumented_service : Service S → Service (Instrumented S)
  unfolding instrument
  instrumented_service inner = record {
    get_block_storage_by_uuid =
        λ uuid. instrument "GetBlockStorageByUUID" (inner.get_block_storage_by_uuid uuid);
    get_block_storage_by_name =
        λ name. instrument "GetBlockStorageByName" (inner.get_block_storage_by_name name);
    list_block_storage = λ zone. instrument "ListBlockStorage" (inner.list_block_storage zone);
    create_block_storage = λ r. instrument "CreateBlockStorage" (inner.create_block_storage r);
    clone_block_storage =
        λ r labels. instrument "CloneBlockStorage" (inner.clone_block_storage r labels);
    delete_block_storage =
        λ uuid. instrument "DeleteBlockStorage" (inner.delete_block_storage uuid);
    attach_block_storage = λ v n. instrument "AttachBlockStorage" (inner.attach_block_storage v n);
    detach_block_storage = λ v n. instrument "DetachBlockStorage" (inner.detach_block_storage v n);
    resize_block_storage =
        λ uuid size b. instrument "ResizeBlockStorage" (inner.resize_block_storage uuid size b);
    resize_block_device =
        λ uuid size. instrument "ResizeBlockDevice" (inner.resize_block_device uuid size);
    require_block_storage_online =
        λ v. instrument "RequireBlockStorageOnline" (inner.require_block_storage_online v);
    get_block_storage_backup_by_name = λ name.
        instrument "GetBlockStorageBackupByName" (inner.get_block_storage_backup_by_name name);
    list_block_storage_backups =
        λ uuid. instrument "ListBlockStorageBackups" (inner.list_block_storage_backups uuid);
    create_block_storage_backup = λ uuid title.
        instrument "CreateBlockStorageBackup" (inner.create_block_storage_backup uuid title);
    delete_block_storage_backup =
        λ uuid. instrument "DeleteBlockStorageBackup" (inner.delete_block_storage_backup uuid);
    get_file_storage_by_uuid =
        λ uuid. instrument "GetFileStorageByUUID" (inner.get_file_storage_by_uuid uuid);
    get_file_storages = instrument "GetFileStorages" inner.get_file_storages;
    delete_file_storage = λ uuid. instrument "DeleteFileStorage" (inner.delete_file_storage uuid);
    modify_file_storage =
        λ uuid size. instrument "ModifyFileStorage" (inner.modify_file_storage uuid size);
    create_file_storage = λ name net size enc.
        instrument "CreateFileStorage" (inner.create_file_storage name net size enc);
    create_file_storage_share_acl = λ fs path.
        instrument "CreateFileStorageShareACL" (inner.create_file_storage_share_acl fs path);
    get_file_storage_networks =
        λ uuid. instrument "GetFileStorageNetworks" (inner.get_file_storage_networks uuid);
    get_network_details = λ uuid. instrument "GetNetworkDetails" (inner.get_network_details uuid);
    get_networks = instrument "GetNetworks" inner.get_networks;
    get_server_by_hostname =
        λ name. instrument "GetServerByHostname" (inner.get_server_by_hostname name);
  }
