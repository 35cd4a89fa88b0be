-- ===== src/Controller/Block.antt =====
-- internal/controller/controller_block_storage.go: block storage volumes.
pub mod Attach
pub mod Expand
pub mod Clone
pub mod Detach
pub mod Attachments
pub mod Single
pub mod Counted
use upcloud_csi.Base.{
  ℤ, leb_ℤ, ltb_ℤ, ltb, ◌==◌, Bool, true, false, not, ◌&&◌, Option, none, some, List, [], ◌∷◌,
  String, str_eq, length, if◌then◌else◌, quot,
}
use upcloud_csi.Go.{
  Action, Result, ok, err, Error, status, as_problem, is_error, internal, not_found,
  invalid_argument, out_of_range, failed_precondition, resource_exhausted, storage_not_found,
  server_not_found, server_storage_not_found, pure, raise, lift, map_error, allow, for_each, ◌>>=◌,
  ◌>>◌,
}
use upcloud_csi.Api.{StorageDetails, ServerDetails, is_backup}
use upcloud_csi.Csi.{
  ContentSource, CreateVolumeRequest, Volume, ExpandRequest, ExpandResponse, is_block,
  PublishRequest, UnpublishRequest,
}
use upcloud_csi.Controller.{Controller, gi_b, bytes_of, topology_region_key}
use upcloud_csi.Controller.Capacity.{
  validate_capacity_range, min_block_storage_size, max_block_storage_size,
}
use upcloud_csi.Controller.Requests.{
  create_volume_request_tier, create_volume_request_encryption_at_rest,
}

-- `status.Error(codes.Internal, err.Error())`
abbrev pub as_internal : Error → Error
as_internal e = status internal

-- A sentinel is reported as `NotFound`, any other error by the code that is given.
abbrev not_found_or_internal : Bool → Error
not_found_or_internal found = if found then status not_found else status internal

abbrev pub is_member : String → List String → Bool
is_member x [] = false
is_member x (y ∷ ys) = if str_eq y x then true else is_member x ys

-- The last element, or the empty text.
abbrev pub last_of : List String → String
last_of [] = ""
last_of (x ∷ []) = x
last_of (x ∷ y ∷ ys) = last_of (y ∷ ys)

-- The source that a volume is to be cloned from.
unfoldable pub source_id : Option ContentSource → Result String
source_id none = err (status internal)
source_id (some (ContentSource.snapshot none)) = err (status internal)
source_id (some (ContentSource.snapshot (some id))) = ok id
source_id (some (ContentSource.volume none)) = err (status internal)
source_id (some (ContentSource.volume (some id))) = ok id
source_id (some ContentSource.no_source) = err (status invalid_argument)

abbrev pub differ : Bool → Bool → Bool
differ true b = not b
differ false b = b

abbrev pub wants_block : ExpandRequest → Bool
wants_block req = elim req.volume_capability [ none ↦ false | some c ↦ is_block c ]

module _ {S : Type 0} (c : Controller S) where
  -- The two branches on `volume.ServerUUIDs` make the same call and give the same answer.
  unfoldable pub expand_block_storage : ExpandRequest → StorageDetails → Action S ExpandResponse
  unfolding bytes_of quot
  expand_block_storage req volume = do
    resize_bytes ←
        map_error (λ e. status out_of_range)
          (lift (
            validate_capacity_range req.capacity_range min_block_storage_size
              max_block_storage_size))
    let resize_gigabytes = quot resize_bytes gi_b
    let node_expansion = not (wants_block req)
    if leb_ℤ resize_gigabytes volume.size
        then pure (record {
          capacity_bytes = bytes_of volume.size;
          node_expansion_required = node_expansion;
        })
        else (do
          map_error as_internal (c.svc.resize_block_device volume.uuid resize_gigabytes)
          pure (record {
            capacity_bytes = bytes_of resize_gigabytes;
            node_expansion_required = node_expansion;
          }))

  unfoldable pub create_volume_from_source :
      CreateVolumeRequest → ℤ → String → Action S StorageDetails
  unfolding source_id
  create_volume_from_source req storage_size_gb tier = do
    id ← lift (source_id req.volume_content_source)
    src ←
        map_error
          (λ e. if is_error e storage_not_found then status not_found else status invalid_argument)
          (c.svc.get_block_storage_by_uuid id)
    let encrypted = create_volume_request_encryption_at_rest req
    if not (is_backup src.storage_type) && differ src.encrypted encrypted
        then raise (status invalid_argument)
        else pure tt
    map_error as_internal (c.svc.require_block_storage_online src.storage)
    vol ← map_error as_internal (
        c.svc.clone_block_storage
          (record {
            uuid = src.uuid;
            zone = c.zone;
            tier = tier;
            title = req.name;
            encrypted = encrypted;
          })
          c.storage_labels)
    if ltb_ℤ vol.size storage_size_gb
        then map_error as_internal (c.svc.resize_block_storage vol.uuid storage_size_gb true)
        else pure vol

  -- A fresh volume, or one cloned from the source that the request names.
  unfoldable pub make_volume :
      Option ContentSource → CreateVolumeRequest → ℤ → String → Action S StorageDetails
  make_volume (some src) req storage_size_gb tier =
      create_volume_from_source req storage_size_gb tier
  make_volume none req storage_size_gb tier = map_error as_internal (
      c.svc.create_block_storage (record {
        zone = c.zone;
        title = req.name;
        size = storage_size_gb;
        tier = tier;
        labels = c.storage_labels;
        encrypted = create_volume_request_encryption_at_rest req;
      }))

  unfoldable pub create_block_storage_volume : CreateVolumeRequest → Action S Volume
  unfolding make_volume quot
  create_block_storage_volume req = do
    tier ← lift (create_volume_request_tier c.library req)
    storage_size ←
        map_error (λ e. status out_of_range)
          (lift (
            validate_capacity_range req.capacity_range min_block_storage_size
              max_block_storage_size))
    vol ← make_volume req.volume_content_source req (quot storage_size gi_b) tier
    pure (record {
      volume_id = vol.uuid;
      capacity_bytes = storage_size;
      accessible_topology = ((topology_region_key, c.zone) ∷ []) ∷ [];
      content_source = req.volume_content_source;
      volume_context = [];
    })

  unfoldable pub find_publish_target : PublishRequest → Action S (ServerDetails × StorageDetails)
  find_publish_target req = do
    server ←
        map_error (λ e. not_found_or_internal (is_error e server_not_found))
          (c.svc.get_server_by_hostname req.node_id)
    volume ←
        map_error (λ e. not_found_or_internal (is_error e storage_not_found))
          (c.svc.get_block_storage_by_uuid req.volume_id)
    map_error as_internal (c.svc.require_block_storage_online volume.storage)
    pure (server, volume)

  -- The limit of attached devices is reported by a code of its own, a conflict is not.
  attach_error : Error → Error
  attach_error e = elim (as_problem e) [
    | none ↦ e
    | some p ↦
        if not (p.http_status == 409) && str_eq p.error_code c.library.device_limit_reached
        then status resource_exhausted
        else e
  ]

  unfoldable pub attach_volume_to_server :
      PublishRequest → ServerDetails → StorageDetails → Action S (Unit {0})
  unfolding attach_error
  attach_volume_to_server req server volume =
      if is_member server.uuid volume.server_uuids
      then pure tt
      else if not (str_eq (last_of volume.server_uuids) "")
      then raise (status failed_precondition)
      else if ltb c.max_volumes_per_node (length server.storage_devices)
      then raise (status resource_exhausted)
      else map_error attach_error (c.svc.attach_block_storage req.volume_id server.uuid)

  -- `DetachBlockStorage`, where a storage that is not attached is no error.
  unfoldable pub detach_quietly : String → String → Action S (Unit {0})
  detach_quietly volume server = do
    allow server_storage_not_found (c.svc.detach_block_storage volume server)
    pure tt

  -- The rest of `detachVolumeFromNode`, once the storage and the server were looked up.
  detach_found_server : String → Option ServerDetails → Action S (Unit {0})
  detach_found_server volume none = pure tt
  detach_found_server volume (some server) = detach_quietly volume server.uuid

  detach_found_volume : UnpublishRequest → Option StorageDetails → Action S (Unit {0})
  detach_found_volume req none = pure tt
  detach_found_volume req (some volume) = do
    server ← allow server_not_found (c.svc.get_server_by_hostname req.node_id)
    detach_found_server req.volume_id server

  unfoldable pub detach_volume_from_node : UnpublishRequest → Action S (Unit {0})
  unfolding detach_quietly detach_found_server detach_found_volume
  detach_volume_from_node req = do
    found ← allow storage_not_found (c.svc.get_block_storage_by_uuid req.volume_id)
    detach_found_volume req found

  detach_everywhere : UnpublishRequest → Option StorageDetails → Action S (Unit {0})
  detach_everywhere req none = pure tt
  detach_everywhere req (some volume) = for_each (detach_quietly req.volume_id) volume.server_uuids

  unfoldable pub unpublish_volume_from_all_nodes : UnpublishRequest → Action S (Unit {0})
  unfolding detach_quietly detach_everywhere
  unpublish_volume_from_all_nodes req = do
    found ← allow storage_not_found (c.svc.get_block_storage_by_uuid req.volume_id)
    detach_everywhere req found
