-- ===== src/Node/Volumes.antt =====
-- The node server's readings of a volume, its growth and what it says of itself (internal/node/node.go).
use upcloud_csi.Base.{ℤ, pos, Bool, false, Option, none, some, List, [], ◌∷◌, String, if◌then◌else◌}
use upcloud_csi.Go.{
  Action, Error, status, internal, not_found, is_not_exist, pure, raise, lift, map_error, attempt,
  ◌>>=◌, ◌>>◌,
}
use upcloud_csi.Csi.{is_block}
use upcloud_csi.Csi.NodeMessages.{
  StatsRequest, NodeExpandRequest, VolumeUsage, bytes, inodes, NodeInfo,
}
use upcloud_csi.Filesystem.{VolumeStatistics}
use upcloud_csi.Service.File.{is_valid_file_storage_uuid}
use upcloud_csi.Node.{Node, internal_error, named}

-- The error of a volume path that cannot be looked up.
abbrev pub path_error : Error → Error
path_error e = if is_not_exist e then status not_found else status internal

module _ {S : Type 0} (n : Node S) where
  usage_of : VolumeStatistics → List VolumeUsage
  usage_of stats =
      record {
        available = stats.available_bytes;
        total = stats.total_bytes;
        used = stats.used_bytes;
        unit = bytes;
      }
      ∷ record {
        available = stats.available_inodes;
        total = stats.total_inodes;
        used = stats.used_inodes;
        unit = inodes;
      }
      ∷ []

  stats_of : String → Option ℤ → Action S (List VolumeUsage)
  stats_of path (some size) =
      pure (record { available = pos 0; total = size; used = pos 0; unit = bytes } ∷ [])
  stats_of path none = do
    mounted ← map_error internal_error (n.fs.is_mounted path)
    if mounted then pure tt else raise (status not_found)
    stats ← map_error internal_error (n.fs.statistics path)
    pure (usage_of stats)

  unfoldable pub node_get_volume_stats : StatsRequest → Action S (List VolumeUsage)
  unfolding usage_of stats_of
  node_get_volume_stats req = do
    lift (named req.volume_id req.volume_path)
    size ← attempt (n.fs.get_block_device_size req.volume_path)
    stats_of req.volume_path size

  abbrev pub wants_device : NodeExpandRequest → Bool
  wants_device req = elim req.volume_capability [ none ↦ false | some c ↦ is_block c ]

  unfoldable pub expand_device : NodeExpandRequest → Action S (Unit {0})
  expand_device req = do
    source ← map_error internal_error (n.fs.get_device_by_id req.volume_id)
    map_error path_error (n.os.stat req.volume_path)
    if wants_device req
        then pure tt
        else map_error internal_error (n.fs.resize_volume source req.volume_path)

  unfoldable pub node_expand_volume : NodeExpandRequest → Action S (Unit {0})
  unfolding expand_device
  node_expand_volume req = do
    lift (named req.volume_id req.volume_path)
    if is_valid_file_storage_uuid n.parses_uuid req.volume_id then pure tt else expand_device req

  unfoldable pub node_get_info : NodeInfo
  node_get_info = record {
    node_id = n.name;
    max_volumes_per_node = n.max_volumes_per_node;
    accessible_topology = ("region", n.zone) ∷ [];
  }

pub data NodeCapability : Type 0 where
  stage_unstage_volume get_volume_stats expand_node_volume : NodeCapability

unfoldable pub node_get_capabilities : List NodeCapability
node_get_capabilities = stage_unstage_volume ∷ get_volume_stats ∷ expand_node_volume ∷ []
