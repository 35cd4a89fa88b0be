-- ===== src/Controller/Snapshot.antt =====
-- internal/controller/controller_snapshot.go: snapshots, which the API keeps as backups.
pub mod Laws
pub mod Counted
use upcloud_csi.Base.{
  ℤ, pos, pos_part, ltb_ℤ, ◌==◌, not, Option, none, some, List, [], ◌∷◌, map, String, str_eq,
  if◌then◌else◌,
}
use upcloud_csi.Go.{
  Action, Error, status, as_problem, is_error, internal, not_found, already_exists, aborted,
  invalid_argument, storage_not_found, backup_in_progress, pure, raise, lift, catch, map_error,
  allow, ◌>>=◌,
}
use upcloud_csi.Go.Decimal.{Bytes, sprint}
use upcloud_csi.Api.{Storage, StorageDetails, is_online}
use upcloud_csi.Csi.{CreateSnapshotRequest, Snapshot, ListSnapshotsRequest, ListSnapshotsResponse}
use upcloud_csi.Service.Block.{is_valid_block_storage_uuid}
use upcloud_csi.Service.File.{is_valid_file_storage_uuid}
use upcloud_csi.Controller.{Controller, bytes_of}
use upcloud_csi.Controller.Pages.{parse_token, paginate_storage}

-- The token of the next page, empty on the last one.
abbrev pub next_token_of : ℤ → Bytes
next_token_of next = if ltb_ℤ (pos 0) next then sprint (pos_part next) else []

unfoldable pub snapshot_of : Storage → Snapshot
snapshot_of s = record {
  size_bytes = bytes_of s.size;
  snapshot_id = s.uuid;
  source_volume_id = s.origin;
  creation_time = s.created;
  ready_to_use = is_online s.state;
}

module _ {S : Type 0} (c : Controller S) where
  -- The backup that has the name, or a new one.
  pub take_backup : CreateSnapshotRequest → Option Storage → Action S Storage
  take_backup req (some s) =
      if not (str_eq s.origin req.source_volume_id) then raise (status already_exists) else pure s
  take_backup req none = do
    sd ←
        map_error (λ e. if is_error e backup_in_progress then status aborted else status internal)
          (c.svc.create_block_storage_backup req.source_volume_id req.name)
    pure sd.storage

  unfoldable pub create_snapshot : CreateSnapshotRequest → Action S Snapshot
  unfolding take_backup snapshot_of
  create_snapshot req =
      if str_eq req.name ""
      then raise (status invalid_argument)
      else if str_eq req.source_volume_id ""
      then raise (status invalid_argument)
      else if is_valid_file_storage_uuid c.library.parses_uuid req.source_volume_id
      then raise (status invalid_argument)
      else (do
        found ←
            map_error (λ e. status internal)
              (allow storage_not_found (c.svc.get_block_storage_backup_by_name req.name))
        s ← take_backup req found
        pure (snapshot_of s))

  -- Only an API error other than 404 is reported.
  unfoldable pub forgive_delete : Error → Action S (Unit {0})
  forgive_delete e = elim (as_problem e) [
    | none ↦ pure tt
    | some p ↦ if p.http_status == 404 then pure tt else raise (status internal)
  ]

  unfoldable pub delete_snapshot : String → Action S (Unit {0})
  unfolding forgive_delete
  delete_snapshot snap_id =
      if str_eq snap_id ""
      then raise (status invalid_argument)
      else if is_valid_block_storage_uuid c.library.parses_uuid snap_id
      then catch (c.svc.delete_block_storage_backup snap_id) forgive_delete
      else pure tt

  -- The page of the snapshots that were found.
  list_page : ℤ → ℤ → List Storage → Action S ListSnapshotsResponse
  list_page start max_entries backups = do
    (entries, next) ← lift (paginate_storage backups start max_entries)
    pure (record { entries = map snapshot_of entries; next_token = next_token_of next })

  -- A snapshot that is not there gives an empty page.
  list_found : ℤ → ListSnapshotsRequest → Option StorageDetails → Action S ListSnapshotsResponse
  list_found start req none = pure (record { entries = []; next_token = [] })
  list_found start req (some s) = list_page start req.max_entries (s.storage ∷ [])

  list_one : ℤ → ListSnapshotsRequest → Action S ListSnapshotsResponse
  list_one start req = do
    found ←
        map_error (λ e. status internal)
          (allow storage_not_found (c.svc.get_block_storage_by_uuid req.snapshot_id))
    list_found start req found

  unfoldable pub list_snapshots : ListSnapshotsRequest → Action S ListSnapshotsResponse
  unfolding list_page list_found list_one snapshot_of
  list_snapshots req = do
    start ← map_error (λ e. status aborted) (lift (parse_token req.starting_token))
    if not (str_eq req.snapshot_id "") then list_one start req else (do
      backups ←
          map_error (λ e. status internal) (c.svc.list_block_storage_backups req.source_volume_id)
      list_page start req.max_entries backups)

  unfoldable pub get_snapshot : String → Action S Snapshot
  unfolding snapshot_of
  get_snapshot snapshot_id = if str_eq snapshot_id "" then raise (status invalid_argument) else (do
    snap ←
        map_error (λ e. if is_error e storage_not_found then status not_found else status internal)
          (c.svc.get_block_storage_by_uuid snapshot_id)
    pure (snapshot_of snap.storage))
