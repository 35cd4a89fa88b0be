-- ===== src/Service/File.antt =====
-- internal/service/upcloud_file_storage.go: NFS file storage of `UpCloudService`.
use upcloud_csi.Base.{
  ℤ, Bool, true, false, List, [], ◌∷◌, String, str_eq, starts_with, if◌then◌else◌,
}
use upcloud_csi.Go.{Action, sentinel, wrap, file_storage_not_found, pure, map_error, ◌>>=◌, ◌>>◌}
use upcloud_csi.Api.{FileStorage, FileStorageNetwork, FileStorageShare, ShareAcl, Network}
use upcloud_csi.Service.{NetworkRef}
use upcloud_csi.Service.Client.{UpcloudService, is_404}

abbrev pub file_storage_uuid_prefix : String
file_storage_uuid_prefix = "17"

unfoldable pub is_valid_file_storage_uuid : (String → Bool) → String → Bool
is_valid_file_storage_uuid parses s =
    if parses s then starts_with s file_storage_uuid_prefix else false

-- Everybody may read and write.
abbrev pub allow_all : ShareAcl
allow_all = record { name = "allow-all"; target = "*"; read_write = true }

-- The name of the first share at a path, the empty text if there is none.
pub share_name : String → List FileStorageShare → String
share_name path [] = ""
share_name path (s ∷ ss) = if str_eq s.path path then s.name else share_name path ss

module _ {S : Type 0} (u : UpcloudService S) where
  unfoldable pub wait_for_file_storage_running : String → Action S FileStorage
  wait_for_file_storage_running uuid = u.client.wait_for_file_storage_running uuid

  unfoldable pub get_file_storage_by_uuid : String → Action S FileStorage
  get_file_storage_by_uuid uuid =
      map_error (λ e. if is_404 e then sentinel file_storage_not_found else e)
        (u.client.get_file_storage uuid)

  unfoldable pub get_file_storages : Action S (List FileStorage)
  get_file_storages = u.client.get_file_storages

  unfoldable pub delete_file_storage : String → Action S (Unit {0})
  delete_file_storage uuid =
      map_error (λ e. if is_404 e then sentinel file_storage_not_found else e)
        (u.client.delete_file_storage uuid)

  unfoldable pub modify_file_storage : String → ℤ → Action S FileStorage
  unfolding wait_for_file_storage_running
  modify_file_storage uuid size = do
    fs ← map_error wrap (u.client.modify_file_storage uuid size)
    wait_for_file_storage_running fs.uuid

  unfoldable pub create_file_storage_share_acl : String → String → Action S (Unit {0})
  unfolding share_name
  create_file_storage_share_acl uuid path = do
    shares ← map_error wrap (u.client.get_file_storage_shares uuid)
    let found = share_name path shares
    if str_eq found ""
        then map_error wrap
            (u.client.create_file_storage_share uuid "default" path (allow_all ∷ []))
        else u.client.create_file_storage_share_acl uuid found allow_all

  unfoldable pub create_file_storage : String → NetworkRef → ℤ → Bool → Action S FileStorage
  unfolding wait_for_file_storage_running create_file_storage_share_acl
  create_file_storage name net size_gib encrypted = do
    made ← map_error wrap (
        u.client.create_file_storage (record {
          name = name;
          zone = net.zone;
          size_gib = size_gib;
          encrypted = encrypted;
          networks =
              record { uuid = net.uuid; name = net.name; family = "IPv4"; ip_address = "" } ∷ [];
        }))
    fs ← map_error wrap (wait_for_file_storage_running made.uuid)
    map_error wrap (create_file_storage_share_acl fs.uuid "/share-1")
    pure fs

  unfoldable pub get_file_storage_networks : String → Action S (List FileStorageNetwork)
  get_file_storage_networks uuid = u.client.get_file_storage_networks uuid

  unfoldable pub get_network_details : String → Action S Network
  get_network_details uuid = u.client.get_network_details uuid

  unfoldable pub get_networks : Action S (List Network)
  get_networks = u.client.get_networks
