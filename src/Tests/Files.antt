-- ===== src/Tests/Files.antt =====
-- File storage volumes created and expanded.
use upcloud_csi.Base.{
  ℕ, ℤ, pos, ◌*◌, ◌^◌, ◌≡◌, refl, true, false, none, some, List, [], ◌∷◌, String, quot, suc,
}
use upcloud_csi.Go.{ok, pure}
use upcloud_csi.Api.{FileStorage, FileStorageNetwork, ServerDetails}
use upcloud_csi.Csi.{CreateVolumeRequest, Volume, ExpandRequest, ExpandResponse}
use upcloud_csi.Controller.{Controller}
use upcloud_csi.Controller.Capacity.{validate_capacity_range}
use upcloud_csi.Controller.Requests.{
  validate_file_storage_create_volume_request, create_volume_request_encryption_at_rest,
}
use upcloud_csi.Controller.Capabilities.{validate_file_storage_capabilities}
use upcloud_csi.Controller.File.{
  create_file_storage_volume, file_storage_server_from_fs, discover_cluster_network,
  file_volume_context,
}
use upcloud_csi.Controller.Rpc.{create_file_volume}
use upcloud_csi.Controller.Rpc.Unique.{IsUnique, create_file_volume-IsUnique}
use upcloud_csi.Tests.Fixtures.{no_service, controller, shared, at_least}

abbrev network : String → FileStorageNetwork
network address = record { uuid = "net"; name = "private"; family = "IPv4"; ip_address = address }

abbrev files : ℤ → String → FileStorage
files size address = record {
  uuid = "17";
  name = "nfs";
  zone = "fi-hel1";
  size_gib = size;
  networks = network "" ∷ network address ∷ [];
}

abbrev node : ServerDetails
node = record {
  uuid = "srv";
  zone = "fi-hel1";
  is_started = true;
  storage_devices = [];
  interfaces =
      record { is_private = false; network = "public" }
      ∷ record { is_private = true; network = "net" }
      ∷ [];
}

-- The state counts the file storages that were made.
abbrev share : Controller ℕ
share = controller (record no_service {
  get_server_by_hostname = λ name. pure node;
  get_networks = pure (record { uuid = "net"; name = "private" } ∷ []);
  get_file_storages = pure [];
  create_file_storage = λ name net size enc n. (ok (files size "10.0.0.1"), suc n);
  modify_file_storage = λ id size n. (ok (files size "10.0.0.1"), suc n);
})

abbrev file_request : CreateVolumeRequest
file_request = record {
  name = "nfs";
  capacity_range = some (at_least (300 * 2 ^ 30));
  volume_capabilities = shared ∷ [];
  parameters = ("type", "nfs") ∷ [];
  volume_content_source = none;
  requisite = none;
}

abbrev file_volume : Volume
file_volume = record {
  volume_id = "17";
  capacity_bytes = pos (300 * 2 ^ 30);
  accessible_topology = (("region", "fi-hel1") ∷ []) ∷ [];
  content_source = none;
  volume_context = file_volume_context "10.0.0.1";
}

create_file_volume-IsUnique_example :
    (list : List FileStorage) × (t : ℕ) × (share.svc.get_file_storages 0 ≡ (ok list, t))
    × IsUnique share file_request list t 1 file_volume
unfolding create_file_volume validate_file_storage_create_volume_request
    validate_file_storage_capabilities create_file_storage_volume discover_cluster_network
    file_storage_server_from_fs create_volume_request_encryption_at_rest validate_capacity_range
    quot
create_file_volume-IsUnique_example =
    create_file_volume-IsUnique share file_request 0 1 file_volume refl

abbrev none_made : ℕ
none_made = 0

abbrev one_made : ℕ
one_made = 1

abbrev grow_request : ExpandRequest
grow_request = record {
  volume_id = "17";
  capacity_range = some (at_least (300 * 2 ^ 30));
  volume_capability = none;
}

abbrev grown : ExpandResponse
grown = record { capacity_bytes = pos (300 * 2 ^ 30); node_expansion_required = false }
