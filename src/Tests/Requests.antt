-- ===== src/Tests/Requests.antt =====
-- Requests, capabilities and labels.
use upcloud_csi.Base.{◌≡◌, ◌≢◌, ◌↔◌, refl, ℕ, pos, eq_iff, All, none, [], ◌∷◌}
use upcloud_csi.Go.{ok}
use upcloud_csi.Csi.{ValidateRequest, confirmed, CreateVolumeRequest}
use upcloud_csi.Controller.Capabilities.{validate_capabilities}
use upcloud_csi.Controller.Capabilities.Laws.{IsSetList, IsBlockUse}
use upcloud_csi.Controller.Requests.{validate_create_volume_request}
use upcloud_csi.Controller.Requests.Laws.{AllInZone, validate_create_volume_request_iff}
use upcloud_csi.Controller.{Controller}
use upcloud_csi.Service.Block.{is_valid_block_storage_uuid}
use upcloud_csi.Controller.Rpc.{block_volume, validate_volume_capabilities}
use upcloud_csi.Controller.Rpc.Confirmed.{created_capabilities_confirmed}
use upcloud_csi.Tests.Fixtures.{
  controller, no_service, disk, library, writer, shared, create_request,
}

pub library-IsSetList : IsSetList library
library-IsSetList = record { set_list-nil = refl; set_list-cons = λ x xs e. absurd (cc e) }

-- A service with one volume.
abbrev shelf : Controller ℕ
shelf =
    controller (record no_service {
      get_block_storage_by_uuid = λ id n. (ok (disk id "pvc" (pos 10) []), n);
    })

abbrev confirm_request : ValidateRequest
confirm_request = record { volume_id = "01aa"; volume_capabilities = writer ∷ [] }

created_capabilities_confirmed_example :
    validate_volume_capabilities shelf confirm_request 7 ≡ (ok (confirmed (writer ∷ [])), 7)
unfolding is_valid_block_storage_uuid validate_capabilities
created_capabilities_confirmed_example =
    created_capabilities_confirmed shelf library-IsSetList confirm_request
      (block_volume (disk "01aa" "pvc" (pos 10) [])) 7 7 (λ e. absurd (cc ((eq_iff "01aa" "").1 e)))
      (λ e. absurd (cc e)) (refl, refl) refl

validate_create_volume_request_iff_example :
    (validate_create_volume_request library (create_request 5) "fi-hel1" ≡ ok tt) ↔ (
      ((create_request 5).name ≢ "")
      × ((create_request 5).volume_capabilities ≢ [])
      × All IsBlockUse (writer ∷ [])
      × AllInZone "fi-hel1" (create_request 5).requisite)
validate_create_volume_request_iff_example =
    validate_create_volume_request_iff library library-IsSetList (create_request 5) "fi-hel1"

-- A request for file storage.
abbrev nfs_request : CreateVolumeRequest
nfs_request = record {
  name = "nfs";
  capacity_range = none;
  volume_capabilities = shared ∷ [];
  parameters = ("type", "nfs") ∷ [];
  volume_content_source = none;
  requisite = none;
}
