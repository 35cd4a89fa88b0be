-- ===== src/Controller/File/Counted.antt =====
-- The file storage operations over the counting service answer as over the service itself.
use upcloud_csi.Base.{List, [], ◌∷◌, String, str_eq}
use upcloud_csi.Api.{FileStorage, Network}
use upcloud_csi.Csi.{CreateVolumeRequest, ExpandRequest}
use upcloud_csi.Service.Metrics.{instrumented_service}
use upcloud_csi.Service.Metrics.Transparent.{Follows, follows_rules, if-Follows}
use upcloud_csi.Controller.{Controller}
use upcloud_csi.Controller.Counted.{counted}
use upcloud_csi.Controller.File.{
  named_network, discover_cluster_network, create_file_storage_volume, expand_file_storage,
}

module _ {S : Type 0} (c : Controller S) where
  named_network-Follows :
      (uuid zone : String) (ns : List Network)
      → Follows (named_network (counted c) uuid zone ns) (named_network c uuid zone ns)
  unfolding named_network
  named_network-Follows uuid zone [] = search follows_rules
  named_network-Follows uuid zone (n ∷ ns) =
      if-Follows (str_eq n.uuid uuid) _ _ _ _ (search follows_rules)
        (named_network-Follows uuid zone ns)

  discover_cluster_network-Follows :
      Follows (discover_cluster_network (counted c)) (discover_cluster_network c)
  unfolding discover_cluster_network instrumented_service
  discover_cluster_network-Follows = search (follows_rules, named_network-Follows) depth 16

  pub create_file_storage_volume-Follows :
      (req : CreateVolumeRequest)
      → Follows (create_file_storage_volume (counted c) req) (create_file_storage_volume c req)
  unfolding create_file_storage_volume instrumented_service
  create_file_storage_volume-Follows req =
      search (follows_rules, discover_cluster_network-Follows) depth 16

  pub expand_file_storage-Follows :
      (req : ExpandRequest) (fs : FileStorage)
      → Follows (expand_file_storage (counted c) req fs) (expand_file_storage c req fs)
  unfolding expand_file_storage instrumented_service
  expand_file_storage-Follows req fs = search follows_rules depth 12
