-- ===== src/Tests/Clones.antt =====
-- A volume made from a volume, smaller than the size that is asked for.
use upcloud_csi.Base.{
  pos, ◌≤ℤ◌, ◌≡◌, refl, sym, ap, subst, true, ◌⊎◌, ◌∙◌, arith, none, some, [], String, str_eq,
  if◌then◌else◌,
}
use upcloud_csi.Go.{ok, pure}
use upcloud_csi.Api.{StorageDetails, is_backup}
use upcloud_csi.Csi.{ContentSource, CreateVolumeRequest}
use upcloud_csi.Service.{Service}
use upcloud_csi.Controller.Requests.{create_volume_request_encryption_at_rest}
use upcloud_csi.Controller.Block.{create_volume_from_source, source_id}
use upcloud_csi.Controller.Block.Clone.{Names, Copies, create_volume_from_source_copies}
use upcloud_csi.Tests.Fixtures.{no_service, controller, disk}

-- The text that each storage holds.
abbrev Texts : Type 0
Texts = String → String

abbrev put : String → String → Texts → Texts
put k text s k' = if str_eq k' k then text else s k'

abbrev copier : Service Texts
copier = record no_service {
  get_block_storage_by_uuid = λ id s. (ok (disk id "source" (pos 5) []), s);
  require_block_storage_online = λ x. pure tt;
  clone_block_storage =
      λ r labels s. (ok (disk "01cc" r.title (pos 5) []), put "01cc" (s r.uuid) s);
  resize_block_storage = λ id size b s. (ok (disk id "pvc" size []), s);
}

copier-Copies : Copies copier (λ s id. s id)
copier-Copies = record {
  finds = λ id s t d e.
      let same : disk id "source" (pos 5) [] ≡ d = cc e in
      (
        sym (ap (λ (z : StorageDetails). z.uuid) same),
        ap (λ (z : Texts). z id) (sym (ap (λ z. z.1) e)),
      );
  waits = λ x s t e. ap (λ (z : Texts). z x.uuid) (sym (ap (λ z. z.1) e));
  clones = λ r labels s t d e.
      let same : disk "01cc" r.title (pos 5) [] ≡ d = cc e in
      ap (λ (z : Texts). z d.uuid) (sym (ap (λ z. z.1) e))
      ∙ ap (λ (z : StorageDetails). put "01cc" (s r.uuid) s z.uuid) (sym same)
      ∙ refl;
  resizes = λ id size b s t d e.
      let same : disk id "pvc" size [] ≡ d = cc e in
      (
        subst (λ (z : StorageDetails). size ≤ℤ z.size) same (omega arith),
        ap (λ (z : Texts). z d.uuid) (sym (ap (λ z. z.1) e))
            ∙ ap (λ (z : StorageDetails). s z.uuid) (sym same),
      );
}

abbrev clone_of_volume : CreateVolumeRequest
clone_of_volume = record {
  name = "pvc";
  capacity_range = none;
  volume_capabilities = [];
  parameters = [];
  volume_content_source = some (ContentSource.volume (some "01bb"));
  requisite = none;
}

-- Each storage holds its own id.
abbrev labelled : Texts
labelled id = id

abbrev result : StorageDetails
result = disk "01cc" "pvc" (pos 8) []

create_volume_from_source_copies_example :
    (id : String) × Names clone_of_volume.volume_content_source id
    × ((create_volume_from_source (controller copier) clone_of_volume (pos 8) "" labelled).1 "01cc"
        ≡ id)
    × (pos 8 ≤ℤ result.size)
    × ((src : StorageDetails) × (t : Texts) × (copier.get_block_storage_by_uuid id labelled
          ≡ (ok src, t))
        × ((is_backup src.storage_type ≡ true)
            ⊎ (src.encrypted ≡ create_volume_request_encryption_at_rest clone_of_volume)))
unfolding create_volume_from_source source_id create_volume_request_encryption_at_rest
create_volume_from_source_copies_example =
    create_volume_from_source_copies (controller copier) (λ s id. s id) copier-Copies
      clone_of_volume (pos 8) "" labelled
      (create_volume_from_source (controller copier) clone_of_volume (pos 8) "" labelled).1 result
      refl
