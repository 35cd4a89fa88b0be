-- ===== src/Controller.antt =====
-- The controller server (internal/controller). This file has its configuration; the children
-- follow the files of the package, and `Rpc` has the handlers of controller.go.
pub mod Capacity
pub mod Pages
pub mod Capabilities
pub mod Requests
pub mod Block
pub mod File
pub mod Snapshot
pub mod Rpc
pub mod Counted
use upcloud_csi.Base.{
  ℤ, ℕ, Bool, true, false, not, List, [], ◌∷◌, String, StringMap, str_eq, ◌^◌, if◌then◌else◌,
  wrap64, ◌*ℤ◌, pos,
}
use upcloud_csi.Go.{Result, ok, err, plain}
use upcloud_csi.Api.{Label}
use upcloud_csi.Csi.{AccessMode}
use upcloud_csi.Service.{Service}

-- Third-party code: whether `uuid.Parse` accepts a text, `sets.NewString(xs…).List()`, the text of an
-- access mode, and the SDK's constants for storage tiers and for an error code.
pub record Library : Type 0 where
  pub parses_uuid : String → Bool
  pub set_list : List String → List String
  pub mode_text : AccessMode → String
  pub tier_max_iops : String
  pub tier_hdd : String
  pub tier_standard : String
  pub device_limit_reached : String

pub record Controller (S : Type 0) : Type 0 where
  pub zone : String
  pub node_host : String
  pub max_volumes_per_node : ℕ
  pub svc : Service S
  pub storage_labels : List Label
  pub library : Library

-- `kiB`, `miB`, `giB`, `tiB`: `1 << (10 * iota)`
abbrev pub gi_b : ℕ
gi_b = 2 ^ 30

-- `int64(size) * giB`
unfoldable pub bytes_of : ℤ → ℤ
unfolding wrap64
bytes_of size = wrap64 (size *ℤ pos gi_b)

abbrev pub topology_region_key : String
topology_region_key = "region"

abbrev pub volume_context_type_key : String
volume_context_type_key = "type"

abbrev pub nfs_server_key : String
nfs_server_key = "nfsServer"

abbrev pub nfs_path_key : String
nfs_path_key = "nfsPath"

abbrev pub volume_type_file_storage : String
volume_type_file_storage = "nfs"
