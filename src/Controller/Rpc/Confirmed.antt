-- ===== src/Controller/Rpc/Confirmed.antt =====
-- ValidateVolumeCapabilities (internal/controller/controller.go) of a volume that is used as it was
-- created.
use upcloud_csi.Base.{
  ◌≡◌, ◌≢◌, refl, true, false, List, [], ◌∷◌, String, str_eq, Bool-cases, inl, inr, eq_iff,
}
use upcloud_csi.Go.{ok}
use upcloud_csi.Csi.{VolumeCapability, ValidateRequest, confirmed}
use upcloud_csi.Service.Block.{is_valid_block_storage_uuid}
use upcloud_csi.Service.File.{is_valid_file_storage_uuid}
use upcloud_csi.Controller.{Controller}
use upcloud_csi.Controller.Capabilities.{validate_capabilities, validate_file_storage_capabilities}
use upcloud_csi.Controller.Capabilities.Laws.{IsSetList, created_block, created_file}
use upcloud_csi.Controller.Rpc.{
  Found, block_volume, file_volume, lookup_volume, validate_volume_capabilities,
}

-- The volume that has the id, at the service: the id is one of block storage or one of file storage.
abbrev pub IsStored : {S : Type 0} → Controller S → String → Found → S → S → Type 0
IsStored c id (block_volume v) s t =
    (is_valid_block_storage_uuid c.library.parses_uuid id ≡ true)
    × (c.svc.get_block_storage_by_uuid id s ≡ (ok v, t))
IsStored c id (file_volume fs) s t =
    (is_valid_block_storage_uuid c.library.parses_uuid id ≡ false)
    × (is_valid_file_storage_uuid c.library.parses_uuid id ≡ true)
    × (c.svc.get_file_storage_by_uuid id s ≡ (ok fs, t))

-- What CreateVolume checks of the capabilities of such a volume.
abbrev pub violations : {S : Type 0} → Controller S → Found → List VolumeCapability → List String
violations c (block_volume v) caps = validate_capabilities c.library caps
violations c (file_volume fs) caps = validate_file_storage_capabilities c.library caps

module _ {S : Type 0} (c : Controller S) (sets : IsSetList c.library) where
  lookup_stored :
      (id : String) (found : Found) (s t : S)
      → IsStored c id found s t
      → lookup_volume c id s ≡ (ok found, t)
  unfolding lookup_volume
  lookup_stored id (block_volume v) s t (block_id, got) = rw (block_id, got) refl
  lookup_stored id (file_volume fs) s t (other, file_id, got) = rw (other, file_id, got) refl

  judged_stored :
      (id : String) (found : Found) (cap : VolumeCapability) (caps : List VolumeCapability)
      (s t : S)
      → str_eq id "" ≡ false
      → IsStored c id found s t
      → violations c found (cap ∷ caps) ≡ []
      → validate_volume_capabilities c
          (record { volume_id = id; volume_capabilities = cap ∷ caps })
          s
        ≡ (ok (confirmed (cap ∷ caps)), t)
  unfolding validate_volume_capabilities
  judged_stored id (block_volume v) cap caps s t named stored none' =
      rw
        (
          named,
          lookup_stored id (block_volume v) s t stored,
          created_block c.library sets (cap ∷ caps) none',
        )
        refl
  judged_stored id (file_volume fs) cap caps s t named stored none' =
      rw
        (
          named,
          lookup_stored id (file_volume fs) s t stored,
          created_file c.library sets (cap ∷ caps) none',
        )
        refl

  judged_list :
      (id : String) (found : Found) (caps : List VolumeCapability) (s t : S)
      → str_eq id "" ≡ false
      → caps ≢ []
      → IsStored c id found s t
      → violations c found caps ≡ []
      → validate_volume_capabilities c (record { volume_id = id; volume_capabilities = caps }) s
        ≡ (ok (confirmed caps), t)
  judged_list id found [] s t named some' stored none' = absurd (some' refl)
  judged_list id found (cap ∷ caps) s t named some' stored none' =
      judged_stored id found cap caps s t named stored none'

  -- Given that a set of texts lists nothing exactly if nothing was inserted: for the id, not empty, of
  -- a volume that is stored, ValidateVolumeCapabilities confirms every list of capabilities, not
  -- empty, that CreateVolume lets pass for its kind of storage.
  pub created_capabilities_confirmed :
      (req : ValidateRequest) (found : Found) (s t : S)
      → req.volume_id ≢ ""
      → req.volume_capabilities ≢ []
      → IsStored c req.volume_id found s t
      → violations c found req.volume_capabilities ≡ []
      → validate_volume_capabilities c req s ≡ (ok (confirmed req.volume_capabilities), t)
  created_capabilities_confirmed req found s t named some' stored none' =
      let full : str_eq req.volume_id "" ≡ false = elim (Bool-cases (str_eq req.volume_id "")) [
        | inl empty ↦ absurd (named ((eq_iff req.volume_id "").0 empty))
        | inr full ↦ full
      ] in
      judged_list req.volume_id found req.volume_capabilities s t full some' stored none'
