-- ===== src/Tests/Fixtures.antt =====
-- Small clouds: a client and a service whose calls fail, to be overridden, and the data of the runs.
use upcloud_csi.Base.{ℕ, ℤ, pos, true, false, none, some, List, [], ◌∷◌, String}
use upcloud_csi.Go.{Action, plain, raise, err, os_error}
use upcloud_csi.Go.Os.{Os}
use upcloud_csi.Filesystem.System.{System, Output}
use upcloud_csi.Api.{Storage, StorageDetails, normal, StorageType, online}
use upcloud_csi.Csi.{
  VolumeCapability, single_node_writer, multi_node_multi_writer, block, mount, CreateVolumeRequest,
  CapacityRange,
}
use upcloud_csi.Service.{Service}
use upcloud_csi.Service.Client.{Client}
use upcloud_csi.Controller.{Controller, Library}

abbrev pub unavailable : {S A : Type 0} → Action S A
unavailable = raise (plain "unavailable")

abbrev pub no_client : {S : Type 0} → Client S
no_client = record {
  get_storages = λ _. unavailable;
  get_storage_details = λ _. unavailable;
  details_beside_error = λ _. none;
  create_storage = λ _. unavailable;
  clone_storage = λ _. unavailable;
  modify_storage = λ _. unavailable;
  delete_storage = λ _. unavailable;
  wait_for_storage_online = λ _. unavailable;
  attach_storage = λ _ _ _. unavailable;
  detach_storage = λ _ _. unavailable;
  resize_storage_filesystem = λ _. unavailable;
  create_backup = λ _ _. unavailable;
  wait_for_server_started = λ _. unavailable;
  get_servers = unavailable;
  get_server_details = λ _. unavailable;
  get_file_storages = unavailable;
  get_file_storage = λ _. unavailable;
  create_file_storage = λ _. unavailable;
  delete_file_storage = λ _. unavailable;
  modify_file_storage = λ _ _. unavailable;
  wait_for_file_storage_running = λ _. unavailable;
  get_file_storage_networks = λ _. unavailable;
  get_file_storage_shares = λ _. unavailable;
  create_file_storage_share = λ _ _ _ _. unavailable;
  create_file_storage_share_acl = λ _ _ _. unavailable;
  get_network_details = λ _. unavailable;
  get_networks = unavailable;
}

abbrev pub no_service : {S : Type 0} → Service S
no_service = record {
  get_block_storage_by_uuid = λ _. unavailable;
  get_block_storage_by_name = λ _. unavailable;
  list_block_storage = λ _. unavailable;
  create_block_storage = λ _. unavailable;
  clone_block_storage = λ _ _. unavailable;
  delete_block_storage = λ _. unavailable;
  attach_block_storage = λ _ _. unavailable;
  detach_block_storage = λ _ _. unavailable;
  resize_block_storage = λ _ _ _. unavailable;
  resize_block_device = λ _ _. unavailable;
  require_block_storage_online = λ _. unavailable;
  get_block_storage_backup_by_name = λ _. unavailable;
  list_block_storage_backups = λ _. unavailable;
  create_block_storage_backup = λ _ _. unavailable;
  delete_block_storage_backup = λ _. unavailable;
  get_file_storage_by_uuid = λ _. unavailable;
  get_file_storages = unavailable;
  delete_file_storage = λ _. unavailable;
  modify_file_storage = λ _ _. unavailable;
  create_file_storage = λ _ _ _ _. unavailable;
  create_file_storage_share_acl = λ _ _. unavailable;
  get_file_storage_networks = λ _. unavailable;
  get_network_details = λ _. unavailable;
  get_networks = unavailable;
  get_server_by_hostname = λ _. unavailable;
}

-- Every text is a UUID, and the set of texts keeps what was inserted.
abbrev pub library : Library
library = record {
  parses_uuid = λ _. true;
  set_list = λ xs. xs;
  mode_text = λ _. "mode";
  tier_max_iops = "maxiops";
  tier_hdd = "hdd";
  tier_standard = "standard";
  device_limit_reached = "STORAGE_DEVICE_LIMIT_REACHED";
}

abbrev pub controller : {S : Type 0} → Service S → Controller S
controller svc = record {
  zone = "fi-hel1";
  node_host = "host";
  max_volumes_per_node = 14;
  svc = svc;
  storage_labels = [];
  library = library;
}

-- Storage of a kind with an id, a title, a size and an origin.
abbrev pub storage : StorageType → String → String → ℤ → String → Storage
storage kind uuid title size origin = record {
  uuid = uuid;
  size = size;
  title = title;
  zone = "fi-hel1";
  storage_type = kind;
  state = online;
  origin = origin;
  created = 7;
  encrypted = false;
}

abbrev pub disk : String → String → ℤ → List String → StorageDetails
disk uuid title size servers = record {
  storage = storage normal uuid title size "";
  server_uuids = servers;
}

abbrev pub writer : VolumeCapability
writer = record { access_mode = some single_node_writer; access_type = block }

abbrev pub shared : VolumeCapability
shared = record {
  access_mode = some multi_node_multi_writer;
  access_type = mount (record { fs_type = ""; mount_flags = [] });
}

-- `n` bytes are required.
abbrev pub at_least : ℕ → CapacityRange
at_least n = record { required_bytes = pos n; limit_bytes = pos 0 }

-- A request for a fresh block storage volume.
abbrev pub create_request : ℕ → CreateVolumeRequest
create_request n = record {
  name = "pvc";
  capacity_range = some (at_least n);
  volume_capabilities = writer ∷ [];
  parameters = [];
  volume_content_source = none;
  requisite = some ((("region", "fi-hel1") ∷ []) ∷ []);
}

-- A host with commands and a clock, and nothing else.
abbrev pub no_os : {S : Type 0} → Os S
no_os = record {
  stat = λ _. unavailable;
  remove = λ _. unavailable;
  mkdir_all = λ _. unavailable;
  create = λ _. unavailable;
  close = λ _. unavailable;
  readlink = λ _ s. (err (os_error true), s);
}

abbrev pub host :
    {S : Type 0} → (String → List String → S → Output × S) → (S → ℕ) → (ℕ → S → S) → System S
host run now sleep = record {
  run = run;
  look_path = λ _. unavailable;
  os = no_os;
  getwd = unavailable;
  now = now;
  sleep = sleep;
  statfs = λ _. unavailable;
  open_device = λ _. unavailable;
  device_size = λ _. unavailable;
  close_device = λ _. unavailable;
  decode = λ _. none;
}
