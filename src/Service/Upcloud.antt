-- ===== src/Service/Upcloud.antt =====
-- internal/service/upcloud_service.go: `UpCloudService` as an implementation of `Service`.
use upcloud_csi.Base.{not, ◌&&◌, Option, none, some, List, [], ◌∷◌, String, str_eq, if◌then◌else◌}
use upcloud_csi.Go.{
  Action, Result, ok, err, plain, sentinel, wrap, server_not_found, raise, map_error, ◌>>=◌,
}
use upcloud_csi.Api.{Server, ServerDetails}
use upcloud_csi.Service.{Service}
use upcloud_csi.Service.Client.{Client, UpcloudService}
use upcloud_csi.Service.Block
use upcloud_csi.Service.Backup
use upcloud_csi.Service.File

module _ {S : Type 0} (u : UpcloudService S) where
  -- The loop of `GetServerByHostname`.
  named_server : String → List Server → Action S ServerDetails
  named_server hostname [] = raise (sentinel server_not_found)
  named_server hostname (s ∷ ss) =
      if str_eq s.hostname hostname
      then u.client.get_server_details s.uuid
      else named_server hostname ss

  unfoldable pub get_server_by_hostname : String → Action S ServerDetails
  unfolding named_server
  get_server_by_hostname hostname = do
    servers ← map_error wrap u.client.get_servers
    named_server hostname servers

  abbrev pub upcloud_service : Service S
  upcloud_service = record {
    get_block_storage_by_uuid = Block.get_block_storage_by_uuid u;
    get_block_storage_by_name = Block.get_block_storage_by_name u;
    list_block_storage = Block.list_block_storage u;
    create_block_storage = Block.create_block_storage u;
    clone_block_storage = Block.clone_block_storage u;
    delete_block_storage = Block.delete_block_storage u;
    attach_block_storage = Block.attach_block_storage u;
    detach_block_storage = Block.detach_block_storage u;
    resize_block_storage = Block.resize_block_storage u;
    resize_block_device = Block.resize_block_device u;
    require_block_storage_online = Block.require_block_storage_online u;
    get_block_storage_backup_by_name = Backup.get_block_storage_backup_by_name u;
    list_block_storage_backups = Backup.list_block_storage_backups u;
    create_block_storage_backup = Backup.create_block_storage_backup u;
    delete_block_storage_backup = Backup.delete_block_storage_backup u;
    get_file_storage_by_uuid = File.get_file_storage_by_uuid u;
    get_file_storages = File.get_file_storages u;
    delete_file_storage = File.delete_file_storage u;
    modify_file_storage = File.modify_file_storage u;
    create_file_storage = File.create_file_storage u;
    create_file_storage_share_acl = File.create_file_storage_share_acl u;
    get_file_storage_networks = File.get_file_storage_networks u;
    get_network_details = File.get_network_details u;
    get_networks = File.get_networks u;
    get_server_by_hostname = get_server_by_hostname;
  }

-- The SDK's client for a user name and a password, or for a token, is a parameter, and so are the
-- mutexes of the servers.
unfoldable pub new_upcloud_service_from_credentials :
    {S : Type 0}
    → (String → String → Option String → Client S)
    → (String → S → S)
    → (String → S → S)
    → String
    → String
    → String
    → Result (UpcloudService S)
new_upcloud_service_from_credentials dial lock unlock username password token =
    if str_eq username "" && str_eq password "" && str_eq token ""
    then err (plain "UpCloud API credentials missing")
    else if not (str_eq token "")
    then ok (record { client = dial "" "" (some token); lock = lock; unlock = unlock })
    else if str_eq username ""
    then err (plain "UpCloud API username is missing")
    else if str_eq password ""
    then err (plain "UpCloud API password is missing")
    else ok (record { client = dial username password none; lock = lock; unlock = unlock })
