-- ===== src/Tests/Snapshots.antt =====
-- Snapshots created twice and deleted.
use upcloud_csi.Base.{
  pos, ◌≡◌, ◌⊎◌, ◌&&◌, true, false, refl, ap, Option, none, some, List, [], ◌∷◌, String, str_eq,
  eq_refl, eq_iff, arith, if◌then◌else◌, ℕ, suc,
}
use upcloud_csi.Go.{Result, ok, err, sentinel, storage_not_found, pure}
use upcloud_csi.Api.{Storage, StorageDetails, backup, is_backup}
use upcloud_csi.Csi.{CreateSnapshotRequest}
use upcloud_csi.Service.Client.{UpcloudService}
use upcloud_csi.Service.Block.{is_valid_block_storage_uuid}
use upcloud_csi.Service.File.{is_valid_file_storage_uuid}
use upcloud_csi.Service.Upcloud.{upcloud_service}
use upcloud_csi.Controller.{Controller}
use upcloud_csi.Controller.Snapshot.{create_snapshot, delete_snapshot, snapshot_of}
use upcloud_csi.Controller.Snapshot.Laws.{
  IsBackupStore, create_snapshot_idempotent, delete_snapshot_only_backups,
}
use upcloud_csi.Tests.Fixtures.{no_client, no_service, controller, disk, library, storage}

-- At most one backup.
abbrev Kept : Type 0
Kept = Option Storage

titled : String → Kept → Result Storage
titled title none = err (sentinel storage_not_found)
titled title (some b) = if str_eq b.title title then ok b else err (sentinel storage_not_found)

abbrev made : String → String → StorageDetails
made v title = record { storage = storage backup "01bb" title (pos 10) v; server_uuids = [] }

abbrev keeper : Controller Kept
keeper = controller (record no_service {
  get_block_storage_backup_by_name = λ title w. (titled title w, w);
  create_block_storage_backup = λ v title w. (ok (made v title), some (made v title).storage);
})

titled-made :
    (v title : String) → titled title (some (made v title).storage) ≡ ok (made v title).storage
unfolding titled
titled-made v title = rw (eq_refl title) refl

made-eq :
    (v title : String) (s t : Kept) (d : StorageDetails)
    → keeper.svc.create_block_storage_backup v title s ≡ (ok d, t)
    → (d ≡ made v title) × (t ≡ some (made v title).storage)
made-eq v title s t d e = (ground arith, ground arith)

found-eq :
    (title : String) (s t : Kept) (b : Storage)
    → keeper.svc.get_block_storage_backup_by_name title s ≡ (ok b, t)
    → keeper.svc.get_block_storage_backup_by_name title t ≡ (ok b, t)
found-eq title s t b e = let same : s ≡ t = ap (λ p. p.1) e in rw same at e

keeper-IsBackupStore : IsBackupStore keeper
keeper-IsBackupStore = record {
  made-origin =
      λ v title s t d e. ap (λ (x : StorageDetails). x.origin) (made-eq v title s t d e).0;
  made-found = λ v title x s₀ s t d missing absent e.
      rw ((made-eq v title s t d e).0, (made-eq v title s t d e).1)
        (ap (λ (r : Result Storage). (r, some (made v title).storage)) (titled-made v title));
  found-again = found-eq;
}

abbrev snapshot_request : CreateSnapshotRequest
snapshot_request = record { name = "snap"; source_volume_id = "01aa" }

create_snapshot_idempotent_example :
    create_snapshot keeper snapshot_request (some (made "01aa" "snap").storage)
    ≡ (ok (snapshot_of (made "01aa" "snap").storage), some (made "01aa" "snap").storage)
unfolding titled create_snapshot is_valid_file_storage_uuid
create_snapshot_idempotent_example =
    create_snapshot_idempotent keeper snapshot_request none (some (made "01aa" "snap").storage)
      (snapshot_of (made "01aa" "snap").storage) keeper-IsBackupStore refl

-- An API with two backups, and a disk under every id.
abbrev backups : List Storage
backups =
    storage backup "01b1" "snap" (pos 10) "01aa" ∷ storage backup "01b2" "snap2" (pos 10) "" ∷ []

abbrev plain_disk : StorageDetails
plain_disk = disk "01aa" "pvc" (pos 10) []

abbrev api : UpcloudService ℕ
api = record {
  client = record no_client {
    get_storages = λ kind. pure backups;
    get_storage_details = λ id n. (ok plain_disk, suc n);
    delete_storage = λ id n. (ok tt, 100);
  };
  lock = λ j n. n;
  unlock = λ j n. n;
}

abbrev kept_backup : StorageDetails
kept_backup = record { storage = storage backup "01bb" "snap" (pos 10) "01aa"; server_uuids = [] }

abbrev vault : UpcloudService ℕ
vault = record api {
  client = record no_client {
    get_storage_details = λ id n. (ok kept_backup, suc n);
    delete_storage = λ id n. (ok tt, 100);
  };
}

delete_snapshot_only_backups_example :
    ((is_valid_block_storage_uuid library.parses_uuid "01bb" ≡ true)
      × (is_backup kept_backup.storage_type ≡ true)
      × (delete_snapshot (controller (upcloud_service vault)) "01bb" 0 ≡ (ok tt, 100)))
    ⊎ ((is_valid_block_storage_uuid library.parses_uuid "01bb"
          && is_backup kept_backup.storage_type)
        ≡ false)
      × ((delete_snapshot (controller (upcloud_service vault)) "01bb" 0 ≡ (ok tt, 0))
          ⊎ (delete_snapshot (controller (upcloud_service vault)) "01bb" 0 ≡ (ok tt, 1)))
delete_snapshot_only_backups_example =
    delete_snapshot_only_backups (controller (upcloud_service vault)) vault refl "01bb" 0 1
      kept_backup refl (λ e. absurd (cc ((eq_iff "01bb" "").1 e)))

abbrev source : String
source = "01aa"
