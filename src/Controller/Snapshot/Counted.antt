-- ===== src/Controller/Snapshot/Counted.antt =====
-- The snapshot handlers over the counting service answer as over the service itself.
use upcloud_csi.Base.{Option, none, some, List, ℤ, String, Option-cases, inl, inr}
use upcloud_csi.Api.{Storage, StorageDetails}
use upcloud_csi.Go.{Error, as_problem}
use upcloud_csi.Csi.{CreateSnapshotRequest, ListSnapshotsRequest}
use upcloud_csi.Service.Metrics.{instrumented_service}
use upcloud_csi.Service.Metrics.Transparent.{Follows, follows_rules}
use upcloud_csi.Controller.{Controller}
use upcloud_csi.Controller.Counted.{counted}
use upcloud_csi.Controller.Snapshot.{
  take_backup, create_snapshot, forgive_delete, delete_snapshot, list_snapshots, get_snapshot,
  list_page, list_one, list_found,
}

module _ {S : Type 0} (c : Controller S) where
  take_backup-Follows :
      (req : CreateSnapshotRequest) (o : Option Storage)
      → Follows (take_backup (counted c) req o) (take_backup c req o)
  unfolding take_backup instrumented_service
  take_backup-Follows req none = search follows_rules depth 12
  take_backup-Follows req (some b) = search follows_rules depth 12

  pub create_snapshot-Follows :
      (req : CreateSnapshotRequest)
      → Follows (create_snapshot (counted c) req) (create_snapshot c req)
  unfolding create_snapshot instrumented_service
  create_snapshot-Follows req = search (follows_rules, take_backup-Follows) depth 16

  pub get_snapshot-Follows :
      (id : String) → Follows (get_snapshot (counted c) id) (get_snapshot c id)
  unfolding get_snapshot instrumented_service
  get_snapshot-Follows id = search follows_rules depth 12

  forgive_delete-Follows : (e : Error) → Follows (forgive_delete (counted c) e) (forgive_delete c e)
  unfolding forgive_delete
  forgive_delete-Follows e = elim (Option-cases (as_problem e)) [
    | inl absent ↦ rw (forgive_delete, absent) (search follows_rules)
    | inr (p, found) ↦ rw (forgive_delete, found) (search follows_rules)
  ]

  pub delete_snapshot-Follows :
      (id : String) → Follows (delete_snapshot (counted c) id) (delete_snapshot c id)
  unfolding delete_snapshot instrumented_service
  delete_snapshot-Follows id = search (follows_rules, forgive_delete-Follows) depth 12

  list_page-Follows :
      (start size : ℤ) (bs : List Storage)
      → Follows (list_page (counted c) start size bs) (list_page c start size bs)
  unfolding list_page
  list_page-Follows start size bs = search follows_rules depth 12

  list_found-Follows :
      (start : ℤ) (req : ListSnapshotsRequest) (o : Option StorageDetails)
      → Follows (list_found (counted c) start req o) (list_found c start req o)
  unfolding list_found
  list_found-Follows start req none = search follows_rules
  list_found-Follows start req (some s) = search (follows_rules, list_page-Follows)

  pub list_snapshots-Follows :
      (req : ListSnapshotsRequest) → Follows (list_snapshots (counted c) req) (list_snapshots c req)
  unfolding list_snapshots list_one instrumented_service
  list_snapshots-Follows req =
      search (follows_rules, list_page-Follows, list_found-Follows) depth 16
