-- ===== src/Tests/Servers.antt =====
-- A server and one storage that is attached to it or not, behind the API client.
use upcloud_csi.Base.{
  pos, ◌≡◌, ◌⊎◌, refl, Bool, true, false, some, [], ◌∷◌, String, str_eq, IsIn, ◌≤◌, length,
  if◌then◌else◌,
}
use upcloud_csi.Go.{ok, pure}
use upcloud_csi.Api.{ServerDetails, StorageDetails}
use upcloud_csi.Csi.{PublishRequest}
use upcloud_csi.Service.Client.{UpcloudService}
use upcloud_csi.Service.Block.{
  attach_block_storage, detach_block_storage, attach_locked, detach_locked, wait_for_server_online,
  with_node_lock, get_block_storage_by_uuid, require_block_storage_online,
}
use upcloud_csi.Service.Block.Locking.{IsMutex, attach_detach_release}
use upcloud_csi.Service.Block.Attachments.{HasDetached, HasAttached, detach_locked-HasDetached}
use upcloud_csi.Service.Upcloud.{upcloud_service, get_server_by_hostname}
use upcloud_csi.Controller.{Controller}
use upcloud_csi.Controller.Block.{attach_volume_to_server, last_of, find_publish_target}
use upcloud_csi.Controller.Requests.{validate_controller_publish_volume_request}
use upcloud_csi.Controller.Rpc.{controller_publish_volume}
use upcloud_csi.Controller.Rpc.Counted.{AllFollow, counted-Follows}
use upcloud_csi.Controller.Rpc.Publish.{controller_publish_volume-HasAttached}
use upcloud_csi.Tests.Fixtures.{no_client, no_service, controller, disk, writer}

-- Which mutexes are held, and whether the storage is attached.
pub record World : Type 0 where
  pub locks : String → Bool
  pub attached : Bool

abbrev server : Bool → ServerDetails
server attached = record {
  uuid = "srv";
  zone = "fi-hel1";
  is_started = true;
  storage_devices = if attached then record { uuid = "01"; address = "virtio:1" } ∷ [] else [];
  interfaces = [];
}

abbrev volume : Bool → StorageDetails
volume attached = disk "01" "pvc" (pos 10) (if attached then "srv" ∷ [] else [])

abbrev pub cloud : UpcloudService World
cloud = record {
  client = record no_client {
    get_storage_details = λ id w. (ok (volume w.attached), w);
    get_servers = pure (record { uuid = "srv"; hostname = "node" } ∷ []);
    get_server_details = λ id w. (ok (server w.attached), w);
    wait_for_server_started = λ id w. (ok (server w.attached), w);
    attach_storage = λ j v a w. (ok (server true), record w { attached = true });
    detach_storage = λ j a w. (ok (server false), record w { attached = false });
  };
  lock = λ j w. record w { locks = λ k. if str_eq j k then true else w.locks k };
  unlock = λ j w. record w { locks = λ k. if str_eq j k then false else w.locks k };
}

abbrev held : String → World → Bool
held k w = w.locks k

abbrev pub detached_world : World
detached_world = record { locks = λ k. false; attached = false }

abbrev attached_world : World
attached_world = record { locks = λ k. false; attached = true }

cloud-IsMutex : IsMutex cloud held
cloud-IsMutex = record {
  held-lock = λ j k s. refl;
  held-unlock = λ j k s. refl;
  held-wait = λ j k. record { at = λ s. refl };
  held-details = λ j k. record { at = λ s. refl };
  held-attach = λ j v a k. record { at = λ s. refl };
  held-detach = λ j a k. record { at = λ s. refl };
}

attach_detach_release_example :
    (held "srv" (attach_block_storage cloud "01" "srv" detached_world).1 ≡ false)
    × (held "srv" (detach_block_storage cloud "01" "srv" detached_world).1 ≡ false)
attach_detach_release_example =
    attach_detach_release cloud held cloud-IsMutex "01" "srv" "srv" detached_world

detach_locked-HasDetached_example :
    (sd : ServerDetails) × (t : World) × (cloud.client.get_server_details "srv" attached_world
      ≡ (ok sd, t))
    × HasDetached cloud "01" "srv" sd.storage_devices detached_world
unfolding detach_locked wait_for_server_online
detach_locked-HasDetached_example =
    detach_locked-HasDetached cloud "01" "srv" attached_world detached_world refl

abbrev pub publish_request : PublishRequest
publish_request = record {
  volume_id = "01";
  node_id = "node";
  volume_capability = some writer;
  readonly = false;
  volume_context = [];
}

-- The world after the publication.
abbrev pub published : World
published =
    (controller_publish_volume (controller (upcloud_service cloud)) "id" publish_request
      detached_world).1

controller_publish_volume-HasAttached_example :
    (validate_controller_publish_volume_request publish_request ≡ ok tt)
    × (server : ServerDetails) × (volume : StorageDetails) × (t : World) × (find_publish_target
          (controller (upcloud_service cloud))
          publish_request
          detached_world
        ≡ (ok (server, volume), t))
    × ((IsIn server.uuid volume.server_uuids × (t ≡ published))
        ⊎ ((last_of volume.server_uuids ≡ "")
            × (length server.storage_devices ≤ 14)
            × (t' : World) × HasAttached cloud "01" server.uuid t'
            × (published ≡ cloud.unlock server.uuid t')))
unfolding controller_publish_volume find_publish_target attach_volume_to_server
    get_block_storage_by_uuid require_block_storage_online get_server_by_hostname
    attach_block_storage validate_controller_publish_volume_request with_node_lock attach_locked
    wait_for_server_online
controller_publish_volume-HasAttached_example =
    controller_publish_volume-HasAttached (controller (upcloud_service cloud)) cloud "id"
      publish_request detached_world published (("ctx_correlation_id", "id") ∷ []) refl refl refl

-- A service whose state says whether the storage is attached.
abbrev switch : Controller Bool
switch = controller (record no_service {
  get_block_storage_by_uuid = λ id b. (ok (volume b), b);
  detach_block_storage = λ v j b. (ok tt, false);
})

counted-Follows_example : AllFollow (controller (upcloud_service cloud))
counted-Follows_example = counted-Follows (controller (upcloud_service cloud))
