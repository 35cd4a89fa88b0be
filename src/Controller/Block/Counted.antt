-- ===== src/Controller/Block/Counted.antt =====
-- The block storage operations over the counting service answer as over the service itself.
use upcloud_csi.Base.{Option, none, some, String, ℤ}
use upcloud_csi.Api.{StorageDetails, ServerDetails}
use upcloud_csi.Csi.{
  CreateVolumeRequest, PublishRequest, UnpublishRequest, ExpandRequest, ContentSource,
}
use upcloud_csi.Service.Metrics.{instrumented_service}
use upcloud_csi.Service.Metrics.Transparent.{Follows, follows_rules}
use upcloud_csi.Controller.{Controller}
use upcloud_csi.Controller.Counted.{counted}
use upcloud_csi.Controller.Block.{
  expand_block_storage, create_volume_from_source, make_volume, create_block_storage_volume,
  find_publish_target, attach_volume_to_server, detach_quietly, detach_found_server,
  detach_found_volume, detach_volume_from_node, detach_everywhere, unpublish_volume_from_all_nodes,
}

module _ {S : Type 0} (c : Controller S) where
  pub expand_block_storage-Follows :
      (req : ExpandRequest) (v : StorageDetails)
      → Follows (expand_block_storage (counted c) req v) (expand_block_storage c req v)
  unfolding expand_block_storage instrumented_service
  expand_block_storage-Follows req v = search follows_rules depth 12

  create_volume_from_source-Follows :
      (req : CreateVolumeRequest) (size : ℤ) (tier : String)
      → Follows
          (create_volume_from_source (counted c) req size tier)
          (create_volume_from_source c req size tier)
  unfolding create_volume_from_source instrumented_service
  create_volume_from_source-Follows req size tier = search follows_rules depth 24

  make_volume-Follows :
      (src : Option ContentSource) (req : CreateVolumeRequest) (size : ℤ) (tier : String)
      → Follows (make_volume (counted c) src req size tier) (make_volume c src req size tier)
  unfolding make_volume instrumented_service
  make_volume-Follows none req size tier = search follows_rules depth 12
  make_volume-Follows (some src) req size tier = create_volume_from_source-Follows req size tier

  pub create_block_storage_volume-Follows :
      (req : CreateVolumeRequest)
      → Follows (create_block_storage_volume (counted c) req) (create_block_storage_volume c req)
  unfolding create_block_storage_volume instrumented_service
  create_block_storage_volume-Follows req = search (follows_rules, make_volume-Follows) depth 12

  pub find_publish_target-Follows :
      (req : PublishRequest)
      → Follows (find_publish_target (counted c) req) (find_publish_target c req)
  unfolding find_publish_target instrumented_service
  find_publish_target-Follows req = search follows_rules depth 12

  pub attach_volume_to_server-Follows :
      (req : PublishRequest) (server : ServerDetails) (v : StorageDetails)
      → Follows
          (attach_volume_to_server (counted c) req server v)
          (attach_volume_to_server c req server v)
  unfolding attach_volume_to_server instrumented_service
  attach_volume_to_server-Follows req server v = search follows_rules depth 12

  detach_quietly-Follows :
      (v j : String) → Follows (detach_quietly (counted c) v j) (detach_quietly c v j)
  unfolding detach_quietly instrumented_service
  detach_quietly-Follows v j = search follows_rules depth 12

  detach_found_server-Follows :
      (v : String) (o : Option ServerDetails)
      → Follows (detach_found_server (counted c) v o) (detach_found_server c v o)
  unfolding detach_found_server
  detach_found_server-Follows v none = search follows_rules
  detach_found_server-Follows v (some server) = detach_quietly-Follows v server.uuid

  detach_found_volume-Follows :
      (req : UnpublishRequest) (o : Option StorageDetails)
      → Follows (detach_found_volume (counted c) req o) (detach_found_volume c req o)
  unfolding detach_found_volume instrumented_service
  detach_found_volume-Follows req none = search follows_rules
  detach_found_volume-Follows req (some v) =
      search (follows_rules, detach_found_server-Follows) depth 12

  pub detach_volume_from_node-Follows :
      (req : UnpublishRequest)
      → Follows (detach_volume_from_node (counted c) req) (detach_volume_from_node c req)
  unfolding detach_volume_from_node instrumented_service
  detach_volume_from_node-Follows req = search (follows_rules, detach_found_volume-Follows) depth 12

  detach_everywhere-Follows :
      (req : UnpublishRequest) (o : Option StorageDetails)
      → Follows (detach_everywhere (counted c) req o) (detach_everywhere c req o)
  unfolding detach_everywhere
  detach_everywhere-Follows req none = search follows_rules
  detach_everywhere-Follows req (some v) = search (follows_rules, detach_quietly-Follows) depth 12

  pub unpublish_volume_from_all_nodes-Follows :
      (req : UnpublishRequest)
      → Follows
          (unpublish_volume_from_all_nodes (counted c) req)
          (unpublish_volume_from_all_nodes c req)
  unfolding unpublish_volume_from_all_nodes instrumented_service
  unpublish_volume_from_all_nodes-Follows req =
      search (follows_rules, detach_everywhere-Follows) depth 12
