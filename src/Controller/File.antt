-- ===== src/Controller/File.antt =====
-- internal/controller/controller_file_storage.go: NFS file storage volumes.
pub mod Counted
pub mod Address
pub mod Expand
use upcloud_csi.Base.{
  ℤ, leb_ℤ, eqb_ℤ, false, none, List, [], ◌∷◌, String, StringMap, str_eq, if◌then◌else◌, quot,
}
use upcloud_csi.Go.{
  Action, Result, ok, err, panic, status, is_error, internal, not_found, already_exists,
  out_of_range, server_not_found, pure, raise, lift, map_error, ◌>>=◌, ◌>>◌,
}
use upcloud_csi.Api.{FileStorage, FileStorageNetwork, Interface, Network}
use upcloud_csi.Csi.{CreateVolumeRequest, Volume, ExpandRequest, ExpandResponse}
use upcloud_csi.Service.{NetworkRef}
use upcloud_csi.Controller.{
  Controller, gi_b, bytes_of, topology_region_key, volume_context_type_key,
  volume_type_file_storage, nfs_server_key, nfs_path_key,
}
use upcloud_csi.Controller.Capacity.{
  validate_capacity_range, min_file_storage_size, max_file_storage_size,
}
use upcloud_csi.Controller.Requests.{create_volume_request_encryption_at_rest}

abbrev pub file_storage_share_path : String
file_storage_share_path = "/share-1"

-- The first address of the networks that is not empty.
pub first_address : List FileStorageNetwork → String
first_address [] = ""
first_address (n ∷ ns) = if str_eq n.ip_address "" then first_address ns else n.ip_address

unfoldable pub file_storage_server_from_fs : FileStorage → String
unfolding first_address
file_storage_server_from_fs fs = first_address fs.networks

-- The network of the first private interface, the empty text if there is none.
pub private_network : List Interface → String
private_network [] = ""
private_network (i ∷ is) = if i.is_private then i.network else private_network is

abbrev pub file_volume_context : String → StringMap
file_volume_context fs_ip =
    (volume_context_type_key, volume_type_file_storage)
    ∷ (nfs_server_key, fs_ip)
    ∷ (nfs_path_key, file_storage_share_path)
    ∷ []

-- The answer for a file storage that is there.
existing_file_volume : FileStorage → ℤ → Result Volume
existing_file_volume fs storage_size =
    if eqb_ℤ (bytes_of fs.size_gib) storage_size
    then ok (record {
      volume_id = fs.uuid;
      capacity_bytes = bytes_of fs.size_gib;
      accessible_topology = ((topology_region_key, fs.zone) ∷ []) ∷ [];
      content_source = none;
      volume_context = file_volume_context (file_storage_server_from_fs fs);
    })
    else err (status already_exists)

checked_file_volume : FileStorage → Result ℤ → Result Volume
checked_file_volume fs (ok storage_size) = existing_file_volume fs storage_size
checked_file_volume fs (err e) = err (status out_of_range)
checked_file_volume fs panic = panic

unfoldable pub create_file_storage_exists_response :
    CreateVolumeRequest → FileStorage → Result Volume
unfolding existing_file_volume checked_file_volume bytes_of
create_file_storage_exists_response req fs =
    checked_file_volume fs
      (validate_capacity_range req.capacity_range min_file_storage_size max_file_storage_size)

module _ {S : Type 0} (c : Controller S) where
  -- The loop over the networks of the account.
  named_network : String → String → List Network → Action S NetworkRef
  named_network uuid zone [] = raise (status internal)
  named_network uuid zone (n ∷ ns) =
      if str_eq n.uuid uuid
      then pure (record { uuid = n.uuid; name = n.name; zone = zone })
      else named_network uuid zone ns

  unfoldable pub discover_cluster_network : Action S NetworkRef
  unfolding private_network named_network
  discover_cluster_network = do
    srv ←
        map_error (λ e. if is_error e server_not_found then status not_found else status internal)
          (c.svc.get_server_by_hostname c.node_host)
    let net_uuid = private_network srv.interfaces
    if str_eq net_uuid "" then raise (status internal) else pure tt
    networks ← map_error (λ e. status internal) c.svc.get_networks
    named_network net_uuid srv.zone networks

  unfoldable pub create_file_storage_volume : CreateVolumeRequest → Action S Volume
  unfolding discover_cluster_network file_storage_server_from_fs quot
  create_file_storage_volume req = do
    storage_size ←
        map_error (λ e. status out_of_range)
          (lift (
            validate_capacity_range req.capacity_range min_file_storage_size max_file_storage_size))
    net ← discover_cluster_network
    fs ←
        map_error (λ e. status internal)
          (c.svc.create_file_storage req.name net (quot storage_size gi_b)
            (create_volume_request_encryption_at_rest req))
    let fs_ip = file_storage_server_from_fs fs
    if str_eq fs_ip "" then raise (status internal) else pure tt
    pure (record {
      volume_id = fs.uuid;
      capacity_bytes = storage_size;
      accessible_topology = ((topology_region_key, net.zone) ∷ []) ∷ [];
      content_source = none;
      volume_context = file_volume_context fs_ip;
    })

  unfoldable pub expand_file_storage : ExpandRequest → FileStorage → Action S ExpandResponse
  unfolding bytes_of quot
  expand_file_storage req fs = do
    resize_bytes ←
        map_error (λ e. status out_of_range)
          (lift (
            validate_capacity_range req.capacity_range min_file_storage_size max_file_storage_size))
    let resize_gigabytes = quot resize_bytes gi_b
    if leb_ℤ resize_gigabytes fs.size_gib
        then pure
            (record { capacity_bytes = bytes_of fs.size_gib; node_expansion_required = false })
        else (do
          modified ←
              map_error (λ e. status internal) (c.svc.modify_file_storage fs.uuid resize_gigabytes)
          pure (record {
            capacity_bytes = bytes_of modified.size_gib;
            node_expansion_required = false;
          }))
