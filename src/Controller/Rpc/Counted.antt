-- ===== src/Controller/Rpc/Counted.antt =====
-- The handlers over the counting service answer as over the service itself.
use upcloud_csi.Base.{◌≡◌, refl, ◌&&◌, Option, none, some, List, [], ◌∷◌, String, str_eq}
use upcloud_csi.Api.{StorageDetails, FileStorage}
use upcloud_csi.Csi.{
  CreateVolumeRequest, PublishRequest, UnpublishRequest, ExpandRequest, ValidateRequest,
  ListRequest, VolumeCapability, CreateSnapshotRequest, ListSnapshotsRequest, CapacityRange,
}
use upcloud_csi.Service.Metrics.{instrumented_service}
use upcloud_csi.Service.Metrics.Transparent.{Follows, follows_rules, if-Follows}
use upcloud_csi.Controller.{Controller}
use upcloud_csi.Controller.Counted.{counted}
use upcloud_csi.Controller.Block.Counted.{
  expand_block_storage-Follows, create_block_storage_volume-Follows, find_publish_target-Follows,
  attach_volume_to_server-Follows, detach_volume_from_node-Follows,
  unpublish_volume_from_all_nodes-Follows,
}
use upcloud_csi.Controller.File.Counted.{
  create_file_storage_volume-Follows, expand_file_storage-Follows,
}
use upcloud_csi.Controller.Snapshot.{create_snapshot, delete_snapshot, list_snapshots, get_snapshot}
use upcloud_csi.Controller.Snapshot.Counted.{
  create_snapshot-Follows, delete_snapshot-Follows, list_snapshots-Follows, get_snapshot-Follows,
}
use upcloud_csi.Controller.Rpc.{
  Found, block_volume, file_volume, create_or_find_file, create_or_find_block, create_file_volume,
  create_block_volume, create_volume, delete_volume, controller_publish_volume,
  controller_unpublish_volume, lookup_volume, validate_found, validate_volume_capabilities,
  list_volumes, expand_found, controller_expand_volume,
}

-- Each handler over the counting service follows the handler over the service itself.
abbrev pub AllFollow : {S : Type 0} → Controller S → Type 0
AllFollow c =
    ((r : CreateVolumeRequest) → Follows (create_volume (counted c) r) (create_volume c r))
    × ((id : String) → Follows (delete_volume (counted c) id) (delete_volume c id))
    × ((k : String) (r : PublishRequest)
        → Follows (controller_publish_volume (counted c) k r) (controller_publish_volume c k r))
    × ((r : UnpublishRequest)
        → Follows (controller_unpublish_volume (counted c) r) (controller_unpublish_volume c r))
    × ((r : ValidateRequest)
        → Follows (validate_volume_capabilities (counted c) r) (validate_volume_capabilities c r))
    × ((r : ListRequest) → Follows (list_volumes (counted c) r) (list_volumes c r))
    × ((r : ExpandRequest)
        → Follows (controller_expand_volume (counted c) r) (controller_expand_volume c r))
    × ((r : CreateSnapshotRequest) → Follows (create_snapshot (counted c) r) (create_snapshot c r))
    × ((id : String) → Follows (delete_snapshot (counted c) id) (delete_snapshot c id))
    × ((r : ListSnapshotsRequest) → Follows (list_snapshots (counted c) r) (list_snapshots c r))
    × ((id : String) → Follows (get_snapshot (counted c) id) (get_snapshot c id))

module _ {S : Type 0} (c : Controller S) where
  create_or_find_file-Follows :
      (req : CreateVolumeRequest) (fs : List FileStorage)
      → Follows (create_or_find_file (counted c) req fs) (create_or_find_file c req fs)
  unfolding create_or_find_file
  create_or_find_file-Follows req [] = create_file_storage_volume-Follows c req
  create_or_find_file-Follows req (f ∷ fs) =
      if-Follows (str_eq f.name req.name && str_eq f.zone c.zone) _ _ _ _ (search follows_rules)
        (create_or_find_file-Follows req fs)

  create_or_find_block-Follows :
      (req : CreateVolumeRequest) (vs : List (Option StorageDetails))
      → Follows (create_or_find_block (counted c) req vs) (create_or_find_block c req vs)
  unfolding create_or_find_block
  create_or_find_block-Follows req [] = create_block_storage_volume-Follows c req
  create_or_find_block-Follows req (v ∷ vs) = search follows_rules

  create_file_volume-Follows :
      (req : CreateVolumeRequest)
      → Follows (create_file_volume (counted c) req) (create_file_volume c req)
  unfolding create_file_volume instrumented_service
  create_file_volume-Follows req = search (follows_rules, create_or_find_file-Follows) depth 12

  create_block_volume-Follows :
      (req : CreateVolumeRequest)
      → Follows (create_block_volume (counted c) req) (create_block_volume c req)
  unfolding create_block_volume instrumented_service
  create_block_volume-Follows req = search (follows_rules, create_or_find_block-Follows) depth 12

  create_volume-Follows :
      (req : CreateVolumeRequest) → Follows (create_volume (counted c) req) (create_volume c req)
  unfolding create_volume
  create_volume-Follows req =
      search (follows_rules, create_file_volume-Follows, create_block_volume-Follows)

  delete_volume-Follows :
      (id : String) → Follows (delete_volume (counted c) id) (delete_volume c id)
  unfolding delete_volume instrumented_service
  delete_volume-Follows id = search follows_rules depth 12

  publish-Follows :
      (correlation : String) (req : PublishRequest)
      → Follows
          (controller_publish_volume (counted c) correlation req)
          (controller_publish_volume c correlation req)
  unfolding controller_publish_volume
  publish-Follows correlation req =
      search (follows_rules, find_publish_target-Follows, attach_volume_to_server-Follows) depth 12

  unpublish-Follows :
      (req : UnpublishRequest)
      → Follows (controller_unpublish_volume (counted c) req) (controller_unpublish_volume c req)
  unfolding controller_unpublish_volume
  unpublish-Follows req =
      search
        (follows_rules, detach_volume_from_node-Follows, unpublish_volume_from_all_nodes-Follows)
        depth 12

  lookup_volume-Follows :
      (id : String) → Follows (lookup_volume (counted c) id) (lookup_volume c id)
  unfolding lookup_volume instrumented_service
  lookup_volume-Follows id = search follows_rules depth 12

  validate_found-Follows :
      (req : ValidateRequest) → Follows (validate_found (counted c) req) (validate_found c req)
  unfolding validate_found
  validate_found-Follows req = search (follows_rules, lookup_volume-Follows) depth 12

  validate_some :
      (caps : List VolumeCapability) (req : ValidateRequest)
      → req.volume_capabilities ≡ caps
      → Follows (validate_volume_capabilities (counted c) req) (validate_volume_capabilities c req)
  unfolding validate_volume_capabilities
  validate_some [] req e = rw e (search follows_rules depth 12)
  validate_some (cap ∷ caps) req e = rw e (search (follows_rules, validate_found-Follows) depth 12)

  list_volumes-Follows :
      (req : ListRequest) → Follows (list_volumes (counted c) req) (list_volumes c req)
  unfolding list_volumes instrumented_service
  list_volumes-Follows req = search follows_rules depth 16

  expand_found-Follows :
      (req : ExpandRequest) (f : Found)
      → Follows (expand_found (counted c) req f) (expand_found c req f)
  unfolding expand_found
  expand_found-Follows req (block_volume v) = expand_block_storage-Follows c req v
  expand_found-Follows req (file_volume f) = expand_file_storage-Follows c req f

  expand_some :
      (o : Option CapacityRange) (req : ExpandRequest)
      → req.capacity_range ≡ o
      → Follows (controller_expand_volume (counted c) req) (controller_expand_volume c req)
  unfolding controller_expand_volume
  expand_some none req e = rw e (search follows_rules depth 12)
  expand_some (some r) req e =
      rw e (search (follows_rules, lookup_volume-Follows, expand_found-Follows) depth 12)

  -- Each of the eleven handlers that call the service gives, over the counting service, the answer,
  -- error or panic that it gives over the service itself, and leaves the same world; and where as many
  -- calls of each method were timed as were counted, that is so afterwards too.
  pub counted-Follows : AllFollow c
  counted-Follows = (
    create_volume-Follows,
    delete_volume-Follows,
    publish-Follows,
    unpublish-Follows,
    λ r. validate_some r.volume_capabilities r refl,
    list_volumes-Follows,
    λ r. expand_some r.capacity_range r refl,
    create_snapshot-Follows c,
    delete_snapshot-Follows c,
    list_snapshots-Follows c,
    get_snapshot-Follows c,
  )
