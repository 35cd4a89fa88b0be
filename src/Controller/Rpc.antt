-- ===== src/Controller/Rpc.antt =====
-- The handlers of internal/controller/controller.go, and `lookupVolume` of controller_utils.go.
pub mod Listing
pub mod Delete
pub mod Publish
pub mod Single
pub mod Confirmed
pub mod Create
pub mod Unique
pub mod Counted
use upcloud_csi.Base.{
  ℤ, eqb_ℤ, false, ◌||◌, ◌&&◌, ◌&&◌, Option, none, some, List, [], ◌∷◌, ◌++◌, map, String,
  StringMap, index, str_eq, if◌then◌else◌, keep,
}
use upcloud_csi.Go.{
  Action, Result, ok, err, panic, Error, status, plain, is_error, internal, not_found,
  already_exists, out_of_range, invalid_argument, aborted, storage_not_found,
  file_storage_not_found, pure, raise, lift, map_error, allow, ◌>>=◌, ◌>>◌,
}
use upcloud_csi.Api.{Storage, StorageDetails, FileStorage, file, other_state}
use upcloud_csi.Csi.{
  AccessMode, single_node_writer, multi_node_multi_writer, VolumeCapability, CreateVolumeRequest,
  Volume, PublishRequest, UnpublishRequest, ValidateRequest, ValidateResponse, confirmed,
  unsupported, ListRequest, VolumeEntry, ListVolumesResponse, ExpandRequest, ExpandResponse,
}
use upcloud_csi.Service.Block.{is_valid_block_storage_uuid}
use upcloud_csi.Service.File.{is_valid_file_storage_uuid}
use upcloud_csi.Controller.{Controller, bytes_of, volume_context_type_key, volume_type_file_storage}
use upcloud_csi.Controller.Capacity.{
  validate_capacity_range, min_block_storage_size, max_block_storage_size,
}
use upcloud_csi.Controller.Pages.{parse_token, paginate_storage}
use upcloud_csi.Controller.Capabilities.{validate_volume_capabilities_against_volume}
use upcloud_csi.Controller.Requests.{
  validate_create_volume_request, validate_file_storage_create_volume_request,
  validate_controller_publish_volume_request,
}
use upcloud_csi.Controller.Block.{
  create_block_storage_volume, expand_block_storage, find_publish_target, attach_volume_to_server,
  detach_volume_from_node, unpublish_volume_from_all_nodes,
}
use upcloud_csi.Controller.File.{
  create_file_storage_exists_response, create_file_storage_volume, expand_file_storage,
}
use upcloud_csi.Controller.Snapshot.{next_token_of}

abbrev pub ctx_correlation_id_key : String
ctx_correlation_id_key = "ctx_correlation_id"

pub data Capability : Type 0 where
  create_delete_volume publish_unpublish_volume list_volumes_capability : Capability
  create_delete_snapshot list_snapshots_capability expand_volume : Capability
  clone_volume get_snapshot_capability : Capability

unfoldable pub supported_capabilities : List Capability
supported_capabilities =
    create_delete_volume ∷ publish_unpublish_volume ∷ list_volumes_capability
    ∷ create_delete_snapshot ∷ list_snapshots_capability ∷ expand_volume ∷ clone_volume
    ∷ get_snapshot_capability ∷ []

-- The answer for a volume that has the name.
existing_volume : CreateVolumeRequest → StorageDetails → Result ℤ → Result Volume
existing_volume req vol (err e) = err (status out_of_range)
existing_volume req vol panic = panic
existing_volume req vol (ok storage_size) =
    if eqb_ℤ (bytes_of vol.size) storage_size
    then ok (record {
      volume_id = vol.uuid;
      capacity_bytes = bytes_of vol.size;
      accessible_topology = [];
      content_source = req.volume_content_source;
      volume_context = [];
    })
    else err (status already_exists)

-- A nil pointer is read, and an empty list indexed, by `volumes[0].Storage`.
unfoldable pub create_volume_exists_response :
    CreateVolumeRequest → List (Option StorageDetails) → Result Volume
unfolding existing_volume bytes_of
create_volume_exists_response req (v ∷ w ∷ vs) = err (plain "fatal: duplicate volume exists")
create_volume_exists_response req [] = panic
create_volume_exists_response req (none ∷ []) = panic
create_volume_exists_response req (some vol ∷ []) =
    existing_volume req vol
      (validate_capacity_range req.capacity_range min_block_storage_size max_block_storage_size)

-- What `lookupVolume` finds.
pub data Found : Type 0 where
  block_volume : StorageDetails → Found
  file_volume : FileStorage → Found

abbrev pub access_mode_of : Found → AccessMode
access_mode_of (block_volume v) = single_node_writer
access_mode_of (file_volume fs) = multi_node_multi_writer

-- A volume that is not there is told apart from other errors of the lookup.
abbrev pub lookup_error : Error → Error
lookup_error e =
    if is_error e storage_not_found || is_error e file_storage_not_found
    then status not_found
    else status internal

-- A file storage in the list of storages.
abbrev pub file_as_storage : FileStorage → Storage
file_as_storage fs = record {
  uuid = fs.uuid;
  size = fs.size_gib;
  title = fs.name;
  zone = fs.zone;
  storage_type = file;
  state = other_state "";
  origin = "";
  created = 0;
  encrypted = false;
}

abbrev pub volume_entry : Storage → VolumeEntry
volume_entry vol = record { volume_id = vol.uuid; capacity_bytes = bytes_of vol.size }

-- The capabilities are confirmed unless there is a violation.
abbrev judged : List VolumeCapability → List String → ValidateResponse
judged caps [] = confirmed caps
judged caps (v ∷ vs) = unsupported (v ∷ vs)

module _ {S : Type 0} (c : Controller S) where
  -- The loop of `CreateVolume` over the file storages: the first of the name in the zone.
  create_or_find_file : CreateVolumeRequest → List FileStorage → Action S Volume
  create_or_find_file req [] = create_file_storage_volume c req
  create_or_find_file req (fs ∷ rest) =
      let later = create_or_find_file req rest in
      if str_eq fs.name req.name && str_eq fs.zone c.zone
      then lift (create_file_storage_exists_response req fs)
      else later

  create_or_find_block : CreateVolumeRequest → List (Option StorageDetails) → Action S Volume
  create_or_find_block req [] = create_block_storage_volume c req
  create_or_find_block req (v ∷ vs) = lift (create_volume_exists_response req (v ∷ vs))

  unfoldable pub create_file_volume : CreateVolumeRequest → Action S Volume
  unfolding create_or_find_file
  create_file_volume req = do
    lift (validate_file_storage_create_volume_request c.library req c.zone)
    file_storages ← map_error (λ e. status internal) c.svc.get_file_storages
    create_or_find_file req file_storages

  unfoldable pub create_block_volume : CreateVolumeRequest → Action S Volume
  unfolding create_or_find_block
  create_block_volume req = do
    lift (validate_create_volume_request c.library req c.zone)
    volumes ← map_error (λ e. status internal) (c.svc.get_block_storage_by_name req.name)
    create_or_find_block req volumes

  unfoldable pub create_volume : CreateVolumeRequest → Action S Volume
  unfolding create_file_volume create_block_volume
  create_volume req =
      if str_eq (index req.parameters volume_context_type_key) volume_type_file_storage
      then create_file_volume req
      else create_block_volume req

  unfoldable pub delete_volume : String → Action S (Unit {0})
  delete_volume volume_id =
      if str_eq volume_id ""
      then raise (status invalid_argument)
      else if is_valid_file_storage_uuid c.library.parses_uuid volume_id
      then (do allow file_storage_not_found (c.svc.delete_file_storage volume_id); pure tt)
      else (do allow storage_not_found (c.svc.delete_block_storage volume_id); pure tt)

  -- The correlation id comes with the context of the call.
  unfoldable pub controller_publish_volume : String → PublishRequest → Action S StringMap
  controller_publish_volume correlation_id req = do
    lift (validate_controller_publish_volume_request req)
    if str_eq (index req.volume_context volume_context_type_key) volume_type_file_storage
        then pure []
        else (do
          (server, volume) ← find_publish_target c req
          attach_volume_to_server c req server volume
          pure ((ctx_correlation_id_key, correlation_id) ∷ []))

  unfoldable pub controller_unpublish_volume : UnpublishRequest → Action S (Unit {0})
  controller_unpublish_volume req =
      if str_eq req.volume_id ""
      then raise (status invalid_argument)
      else if is_valid_file_storage_uuid c.library.parses_uuid req.volume_id
      then pure tt
      else if str_eq req.node_id ""
      then unpublish_volume_from_all_nodes c req
      else detach_volume_from_node c req

  unfoldable pub lookup_volume : String → Action S Found
  lookup_volume id =
      if is_valid_block_storage_uuid c.library.parses_uuid id
      then (do vol ← c.svc.get_block_storage_by_uuid id; pure (block_volume vol))
      else if is_valid_file_storage_uuid c.library.parses_uuid id
      then (do fs ← c.svc.get_file_storage_by_uuid id; pure (file_volume fs))
      else raise (plain "invalid volume UUID")

  validate_found : ValidateRequest → Action S ValidateResponse
  validate_found req = do
    found ← map_error lookup_error (lookup_volume req.volume_id)
    pure (
        judged req.volume_capabilities (
          validate_volume_capabilities_against_volume c.library req.volume_capabilities
            (access_mode_of found)))

  unfoldable pub validate_volume_capabilities : ValidateRequest → Action S ValidateResponse
  unfolding validate_found
  validate_volume_capabilities req =
      if str_eq req.volume_id ""
      then raise (status invalid_argument)
      else elim req.volume_capabilities [
        | [] ↦ raise (status invalid_argument)
        | cap ∷ caps ↦ validate_found req
      ]

  unfoldable pub list_volumes : ListRequest → Action S ListVolumesResponse
  list_volumes req = do
    start ← map_error (λ e. status aborted) (lift (parse_token req.starting_token))
    storages ← map_error (λ e. status internal) (c.svc.list_block_storage c.zone)
    file_storages ← map_error (λ e. status internal) c.svc.get_file_storages
    let files = map file_as_storage (keep (λ fs. str_eq fs.zone c.zone) file_storages)
    (entries, next) ← lift (paginate_storage (storages ++ files) start req.max_entries)
    pure (record { entries = map volume_entry entries; next_token = next_token_of next })

  expand_found : ExpandRequest → Found → Action S ExpandResponse
  expand_found req (block_volume v) = expand_block_storage c req v
  expand_found req (file_volume fs) = expand_file_storage c req fs

  unfoldable pub controller_expand_volume : ExpandRequest → Action S ExpandResponse
  unfolding lookup_volume expand_found
  controller_expand_volume req =
      if str_eq req.volume_id "" then raise (status invalid_argument) else elim req.capacity_range [
        | none ↦ raise (status invalid_argument)
        | some cr ↦ (do
          found ← map_error lookup_error (lookup_volume req.volume_id)
          expand_found req found)
      ]

  unfoldable pub controller_get_capabilities : Action S (List Capability)
  unfolding supported_capabilities
  controller_get_capabilities = pure supported_capabilities
