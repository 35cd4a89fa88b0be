-- ===== src/Controller/Block/Clone.antt =====
-- A volume made from a snapshot or from another volume.
use upcloud_csi.Base.{
  ℤ, ◌≤ℤ◌, ◌<ℤ◌, ltb_ℤ, ◌≡◌, ◌⊎◌, inl, inr, sym, ap, ◌∙◌, subst, List, Option, none, some, Bool,
  true, not, ◌&&◌, String, arith, Bool-cases, if◌then◌else◌,
}
use upcloud_csi.Go.{
  ok, Error, status, is_error, not_found, invalid_argument, storage_not_found, pure, raise, lift,
  map_error,
}
use upcloud_csi.Go.Inversion.{bind-eq-ok, map_error-eq-ok}
use upcloud_csi.Api.{Storage, Label, StorageDetails, CloneStorageRequest, is_backup}
use upcloud_csi.Csi.{ContentSource, snapshot, volume, no_source, CreateVolumeRequest}
use upcloud_csi.Service.{Service}
use upcloud_csi.Controller.{Controller}
use upcloud_csi.Controller.Requests.{create_volume_request_encryption_at_rest}
use upcloud_csi.Controller.Block.{source_id, differ, as_internal, create_volume_from_source}

module _ {S : Type 0} (c : Controller S) (req : CreateVolumeRequest) (size : ℤ)
    (tier : String) where
  -- The clone of a source that is asked for.
  abbrev pub clone_request : StorageDetails → CloneStorageRequest
  clone_request src = record {
    uuid = src.uuid;
    zone = c.zone;
    tier = tier;
    title = req.name;
    encrypted = create_volume_request_encryption_at_rest req;
  }

  -- The source that was found and the clone that was made of it. The clone is the volume if it is
  -- large enough, and else it was resized, with the backup of the resize deleted.
  pub record IsCloned (s s' : S) (v : StorageDetails) : Type 0 where
    pub id : String
    pub src : StorageDetails
    pub clone : StorageDetails
    pub found : S
    pub online : S
    pub cloned : S
    pub named : source_id req.volume_content_source ≡ ok id
    pub looked_up : c.svc.get_block_storage_by_uuid id s ≡ (ok src, found)
    pub compatible :
        (is_backup src.storage_type ≡ true)
        ⊎ (src.encrypted ≡ create_volume_request_encryption_at_rest req)
    pub waited : c.svc.require_block_storage_online src.storage found ≡ (ok tt, online)
    pub made :
        c.svc.clone_block_storage (clone_request src) c.storage_labels online ≡ (ok clone, cloned)
    pub sized :
        ((size ≤ℤ clone.size) × (v ≡ clone) × (cloned ≡ s'))
        ⊎ ((clone.size <ℤ size)
            × (c.svc.resize_block_storage clone.uuid size true cloned ≡ (ok v, s')))

  sized_end :
      (clone v : StorageDetails) (t s' : S)
      → (if ltb_ℤ clone.size size
            then map_error as_internal (c.svc.resize_block_storage clone.uuid size true)
            else pure clone)
          t
        ≡ (ok v, s')
      → ((size ≤ℤ clone.size) × (v ≡ clone) × (t ≡ s'))
        ⊎ ((clone.size <ℤ size) × (c.svc.resize_block_storage clone.uuid size true t ≡ (ok v, s')))
  sized_end clone v t s' e = elim (Bool-cases (ltb_ℤ clone.size size)) [
    | inl small ↦ inr (
      ground arith,
      map_error-eq-ok as_internal (c.svc.resize_block_storage clone.uuid size true) t s' v
          (rw small at e),
    )
    | inr large ↦ let e' = rw large at e in inl (ground arith, ground arith, ground arith)
  ]

  encryption_checked :
      (src : StorageDetails) (enc : Bool) (t t' : S)
      → (if not (is_backup src.storage_type) && differ src.encrypted enc
            then raise (status invalid_argument)
            else pure {A = Unit {0}} tt)
          t
        ≡ (ok tt, t')
      → ((is_backup src.storage_type ≡ true) ⊎ (src.encrypted ≡ enc)) × (t ≡ t')
  encryption_checked src enc t t' e = ground arith

  -- A volume made from a source, where that succeeds, is a clone of the storage that the request
  -- names, with the request's title and encryption, the tier given, and the driver's zone and
  -- labels. The source was seen online, and it is a backup or is encrypted exactly if the request
  -- asks for that. The volume is the clone itself if it is at least as large as requested, and else
  -- the clone resized to the requested size.
  create_volume_from_source-IsCloned :
      (s s' : S) (v : StorageDetails)
      → create_volume_from_source c req size tier s ≡ (ok v, s')
      → IsCloned s s' v
  unfolding create_volume_from_source
  create_volume_from_source-IsCloned s s' v e =
      let enc = create_volume_request_encryption_at_rest req in
      let (id, t₀, named, e₁) =
        bind-eq-ok (lift (source_id req.volume_content_source)) _ s s' v e in
      let f = λ (x : Error).
        if is_error x storage_not_found then status not_found else status invalid_argument in
      let get = c.svc.get_block_storage_by_uuid id in
      let (src, t₁, got, e₂) = bind-eq-ok (map_error f get) _ t₀ s' v e₁ in
      let (_, t₂, checked, e₃) =
        bind-eq-ok
          (if not (is_backup src.storage_type) && differ src.encrypted enc
            then raise (status invalid_argument)
            else pure {A = Unit {0}} tt)
          _ t₁ s' v e₂ in
      let wait = c.svc.require_block_storage_online src.storage in
      let (_, t₃, waited, e₄) = bind-eq-ok (map_error as_internal wait) _ t₂ s' v e₃ in
      let copy = c.svc.clone_block_storage (clone_request src) c.storage_labels in
      let (clone, t₄, made, e₅) = bind-eq-ok (map_error as_internal copy) _ t₃ s' v e₄ in
      let here : t₀ ≡ s = ground arith in
      let (compatible, same) = encryption_checked src enc t₁ t₂ checked in
      record {
        id = id;
        src = src;
        clone = clone;
        found = t₂;
        online = t₃;
        cloned = t₄;
        named = ground arith;
        looked_up =
            subst (λ z. get z ≡ (ok src, t₂)) here
              (subst (λ z. get t₀ ≡ (ok src, z)) same (map_error-eq-ok f get t₀ t₁ src got));
        compatible = compatible;
        waited = map_error-eq-ok as_internal wait t₂ t₃ tt waited;
        made = map_error-eq-ok as_internal copy t₃ t₄ clone made;
        sized = sized_end clone v t₄ s' e₅;
      }

-- The request names the storage, as a snapshot or as a volume.
abbrev pub Names : Option ContentSource → String → Type 0
Names (some (snapshot (some i))) id = i ≡ id
Names (some (volume (some i))) id = i ≡ id
Names _ id = ⊥

-- What is relied on of the service, for the data that a storage holds: a lookup answers for the id that
-- it is asked for; lookups and waiting leave the data of the storage alone; a clone holds the data of
-- its source; a resize keeps the storage and its data, and makes it as large as asked for.
pub record Copies {S D : Type 0} (svc : Service S) (data_of : S → String → D) : Type 0 where
  pub finds :
      (id : String) (s t : S) (d : StorageDetails)
      → svc.get_block_storage_by_uuid id s ≡ (ok d, t)
      → (d.uuid ≡ id) × (data_of t id ≡ data_of s id)
  pub waits :
      (x : Storage) (s t : S)
      → svc.require_block_storage_online x s ≡ (ok tt, t)
      → data_of t x.uuid ≡ data_of s x.uuid
  pub clones :
      (r : CloneStorageRequest) (labels : List Label) (s t : S) (d : StorageDetails)
      → svc.clone_block_storage r labels s ≡ (ok d, t)
      → data_of t d.uuid ≡ data_of s r.uuid
  pub resizes :
      (id : String) (size : ℤ) (deletes : Bool) (s t : S) (d : StorageDetails)
      → svc.resize_block_storage id size deletes s ≡ (ok d, t)
      → (size ≤ℤ d.size) × (data_of t d.uuid ≡ data_of s id)

source_id-Names : (x : Option ContentSource) (id : String) → source_id x ≡ ok id → Names x id
unfolding source_id
source_id-Names none id e = absurd (cc e)
source_id-Names (some (snapshot none)) id e = absurd (cc e)
source_id-Names (some (snapshot (some i))) id e = cc e
source_id-Names (some (volume none)) id e = absurd (cc e)
source_id-Names (some (volume (some i))) id e = cc e
source_id-Names (some no_source) id e = absurd (cc e)

module _ {S D : Type 0} (c : Controller S) (data_of : S → String → D)
    (copies : Copies c.svc data_of) where
  sized_copy :
      (size : ℤ) (clone v : StorageDetails) (t s' : S)
      → ((size ≤ℤ clone.size) × (v ≡ clone) × (t ≡ s'))
        ⊎ ((clone.size <ℤ size) × (c.svc.resize_block_storage clone.uuid size true t ≡ (ok v, s')))
      → (size ≤ℤ v.size) × (data_of s' v.uuid ≡ data_of t clone.uuid)
  sized_copy size clone v t s' (inl (large, same, last)) = (
    subst (λ (z : StorageDetails). size ≤ℤ z.size) (sym same) large,
    ap (λ z. data_of z v.uuid) (sym last) ∙ ap (λ (z : StorageDetails). data_of t z.uuid) same,
  )
  sized_copy size clone v t s' (inr (small, resized)) =
      copies.resizes clone.uuid size true t s' v resized

  -- Over a service whose clones hold the data of their source and whose resizes keep data and give
  -- the size: a volume that is made from a source, where that succeeds, holds the data that the
  -- storage which the request names, as a snapshot or a volume, held before, and is at least as large
  -- as requested. That storage was found; it is a backup, or encrypted exactly if the request asks
  -- for encryption.
  pub create_volume_from_source_copies :
      (req : CreateVolumeRequest) (size : ℤ) (tier : String) (s s' : S) (v : StorageDetails)
      → create_volume_from_source c req size tier s ≡ (ok v, s')
      → (id : String) × Names req.volume_content_source id
        × (data_of s' v.uuid ≡ data_of s id)
        × (size ≤ℤ v.size)
        × ((src : StorageDetails) × (t : S) × (c.svc.get_block_storage_by_uuid id s ≡ (ok src, t))
            × ((is_backup src.storage_type ≡ true)
                ⊎ (src.encrypted ≡ create_volume_request_encryption_at_rest req)))
  create_volume_from_source_copies req size tier s s' v e =
      let is = create_volume_from_source-IsCloned c req size tier s s' v e in
      let (same, found) = copies.finds is.id s is.found is.src is.looked_up in
      let waited = copies.waits is.src.storage is.found is.online is.waited in
      let made =
        copies.clones (clone_request c req size tier is.src) c.storage_labels is.online is.cloned
          is.clone is.made in
      let (large, kept) = sized_copy size is.clone v is.cloned s' is.sized in
      (
        is.id,
        source_id-Names req.volume_content_source is.id is.named,
        kept ∙ made ∙ waited ∙ ap (data_of is.found) same ∙ found,
        large,
        (is.src, is.found, is.looked_up, is.compatible),
      )
