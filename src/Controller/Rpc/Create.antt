-- ===== src/Controller/Rpc/Create.antt =====
-- `CreateVolume`: what its success guarantees, and what a repeated call answers.
use upcloud_csi.Base.{
  ℕ, ℤ, pos, ◌+◌, ◌*◌, ◌^◌, ◌<◌, ◌==◌, quot, ◌≡◌, ◌≢◌, ◌⊎◌, inl, inr, refl, sym, ◌∙◌, ap, subst,
  Bool, true, false, none, some, [], ◌∷◌, String, index, str_eq, arith, Bool-cases, All,
  if◌then◌else◌,
}
use upcloud_csi.Go.{Result, ok, err, status, out_of_range, already_exists, lift, map_error}
use upcloud_csi.Go.Inversion.{bind-eq-ok, map_error-eq-ok, checked-eq-ok}
use upcloud_csi.Api.{StorageDetails, CreateStorageRequest}
use upcloud_csi.Csi.{CreateVolumeRequest, Volume}
use upcloud_csi.Controller.{Controller, gi_b, volume_context_type_key, volume_type_file_storage}
use upcloud_csi.Controller.Capacity.{
  validate_capacity_range, min_block_storage_size, max_block_storage_size,
}
use upcloud_csi.Controller.Capabilities.Laws.{IsSetList, IsBlockUse, IsFileUse}
use upcloud_csi.Controller.Requests.{
  validate_create_volume_request, validate_file_storage_create_volume_request,
  create_volume_request_tier, create_volume_request_encryption_at_rest,
}
use upcloud_csi.Controller.Requests.Laws.{
  AllInZone, validate_create_volume_request_iff, validate_file_storage_create_volume_request_iff,
}
use upcloud_csi.Controller.Block.{create_block_storage_volume, make_volume, as_internal}
use upcloud_csi.Controller.Block.Expand.{bytes_of-pos, quot-gi_b}
use upcloud_csi.Controller.Rpc.{
  create_volume, create_file_volume, create_block_volume, create_or_find_block,
  create_volume_exists_response,
}

module _ {S : Type 0} (c : Controller S) (req : CreateVolumeRequest) where
  -- The storage class asks for NFS.
  abbrev pub asks_file : Bool
  asks_file = str_eq (index req.parameters volume_context_type_key) volume_type_file_storage

  file_volume-valid :
      (s s' : S) (v : Volume)
      → create_file_volume c req s ≡ (ok v, s')
      → validate_file_storage_create_volume_request c.library req c.zone ≡ ok tt
  unfolding create_file_volume
  file_volume-valid s s' v e =
      let (_, _, passed, _) =
        bind-eq-ok (lift (validate_file_storage_create_volume_request c.library req c.zone)) _ s s'
          v e in
      ground arith

  block_volume-valid :
      (s s' : S) (v : Volume)
      → create_block_volume c req s ≡ (ok v, s')
      → validate_create_volume_request c.library req c.zone ≡ ok tt
  unfolding create_block_volume
  block_volume-valid s s' v e =
      let (_, _, passed, _) =
        bind-eq-ok (lift (validate_create_volume_request c.library req c.zone)) _ s s' v e in
      ground arith

  -- Given that a set of texts lists nothing exactly if nothing was inserted: a volume is created,
  -- or found, only for a request that has a name and capabilities, whose requisite topologies name
  -- no region other than the zone, and whose capabilities are all ones of the kind of storage that
  -- its parameters ask for.
  pub create_volume-valid :
      (s s' : S) (v : Volume)
      → IsSetList c.library
      → create_volume c req s ≡ (ok v, s')
      → (req.name ≢ "")
        × (req.volume_capabilities ≢ [])
        × AllInZone c.zone req.requisite
        × (((asks_file ≡ true) × All IsFileUse req.volume_capabilities)
            ⊎ ((asks_file ≡ false) × All IsBlockUse req.volume_capabilities))
  unfolding create_volume
  create_volume-valid s s' v sets e = elim (Bool-cases asks_file) [
    | inl nfs ↦
        let (name, caps, uses, _, zones) =
          (validate_file_storage_create_volume_request_iff c.library sets req c.zone).0
            (file_volume-valid s s' v (rw nfs at e)) in
        (name, caps, zones, inl (nfs, uses))
    | inr disk ↦
        let (name, caps, uses, zones) =
          (validate_create_volume_request_iff c.library sets req c.zone).0
            (block_volume-valid s s' v (rw disk at e)) in
        (name, caps, zones, inr (disk, uses))
  ]

-- What is relied on of a storage that was created: it has the size that was asked for, and, where the
-- lookup of its title found none before, it is the only one that the lookup finds now, without a
-- change.
pub record IsVolumeStore {S : Type 0} (c : Controller S) : Type 0 where
  pub made-size :
      (r : CreateStorageRequest) (s t : S) (d : StorageDetails)
      → c.svc.create_block_storage r s ≡ (ok d, t)
      → d.size ≡ r.size
  pub made-only :
      (r : CreateStorageRequest) (s₀ s t : S) (d : StorageDetails)
      → c.svc.get_block_storage_by_name r.title s₀ ≡ (ok [], s)
      → c.svc.create_block_storage r s ≡ (ok d, t)
      → c.svc.get_block_storage_by_name r.title t ≡ (ok (some d ∷ []), t)

module _ {S : Type 0} (c : Controller S) (req : CreateVolumeRequest)
    (fresh : req.volume_content_source ≡ none) where
  abbrev checked_size : Result ℤ
  checked_size =
      validate_capacity_range req.capacity_range min_block_storage_size max_block_storage_size

  -- The storage that a request for a fresh volume asks for.
  abbrev storage_request : ℤ → String → CreateStorageRequest
  storage_request size tier = record {
    zone = c.zone;
    title = req.name;
    size = quot size gi_b;
    tier = tier;
    labels = c.storage_labels;
    encrypted = create_volume_request_encryption_at_rest req;
  }

  make_volume-made :
      (size : ℤ) (tier : String) (s t : S) (d : StorageDetails)
      → make_volume c req.volume_content_source req (quot size gi_b) tier s ≡ (ok d, t)
      → c.svc.create_block_storage (storage_request size tier) s ≡ (ok d, t)
  unfolding make_volume
  make_volume-made size tier s t d e =
      map_error-eq-ok as_internal (c.svc.create_block_storage (storage_request size tier)) s t d
        (subst (λ o. make_volume c o req (quot size gi_b) tier s ≡ (ok d, t)) fresh e)

  abbrev IsFresh : S → S → Volume → Type 0
  IsFresh s s' v =
      (tier : String) × (d : StorageDetails) × (checked_size ≡ ok v.capacity_bytes)
      × (c.svc.create_block_storage (storage_request v.capacity_bytes tier) s ≡ (ok d, s'))
      × (v.volume_id ≡ d.uuid)

  IsFresh-end :
      (tier : String) (z : ℤ) (d : StorageDetails) (s t s' : S) (v : Volume)
      → checked_size ≡ ok z
      → c.svc.create_block_storage (storage_request z tier) s ≡ (ok d, t)
      → z ≡ v.capacity_bytes
      → d.uuid ≡ v.volume_id
      → t ≡ s'
      → IsFresh s s' v
  IsFresh-end tier z d s t s' v valid made size id last = (
    tier,
    d,
    rw size at valid,
    subst (λ u. c.svc.create_block_storage (storage_request v.capacity_bytes tier) s ≡ (ok d, u))
        last (rw size at made),
    sym id,
  )

  create_block_storage_volume-IsFresh :
      (s s' : S) (v : Volume) → create_block_storage_volume c req s ≡ (ok v, s') → IsFresh s s' v
  unfolding create_block_storage_volume
  create_block_storage_volume-IsFresh s s' v e =
      let (tier, t₀, tiered, e₁) =
        bind-eq-ok (lift (create_volume_request_tier c.library req)) _ s s' v e in
      let here : s ≡ t₀ = ground arith in
      let (z, t₁, passed, e₂) =
        bind-eq-ok (map_error (λ e. status out_of_range) (lift checked_size)) _ t₀ s' v e₁ in
      let (valid, here') = checked-eq-ok (λ e. status out_of_range) checked_size t₀ t₁ z passed in
      let (d, t₂, made, e₃) =
        bind-eq-ok (make_volume c req.volume_content_source req (quot z gi_b) tier) _ t₁ s' v e₂ in
      let made' = make_volume-made z tier t₁ t₂ d made in
      IsFresh-end tier z d s t₂ s' v valid (rw (← here', ← here) at made') (ground arith)
        (ground arith) (ground arith)

  -- A volume of the name that was made from a request for `k` GiB and `extra` bytes, as a repeated
  -- call finds it.
  exists_answer :
      (k extra : ℕ) (d : StorageDetails)
      → extra < 2 ^ 30
      → k < 2 ^ 33
      → checked_size ≡ ok (pos (k * 2 ^ 30 + extra))
      → d.size ≡ pos k
      → create_volume_exists_response req (some d ∷ []) ≡ (
          if extra == 0
          then ok (record {
            volume_id = d.uuid;
            capacity_bytes = pos (k * 2 ^ 30 + extra);
            accessible_topology = [];
            content_source = req.volume_content_source;
            volume_context = [];
          })
          else err (status already_exists))
  unfolding create_volume_exists_response
  exists_answer k extra d below small valid size =
      rw (valid, size, bytes_of-pos k small) (ground arith)

  block_again :
      (s' : S) (d : StorageDetails)
      → validate_create_volume_request c.library req c.zone ≡ ok tt
      → c.svc.get_block_storage_by_name req.name s' ≡ (ok (some d ∷ []), s')
      → create_block_volume c req s' ≡ (create_volume_exists_response req (some d ∷ []), s')
  unfolding create_block_volume create_or_find_block
  block_again s' d valid found = rw (valid, found) refl

  block_fresh :
      (s t s' : S) (v : Volume)
      → c.svc.get_block_storage_by_name req.name s ≡ (ok [], t)
      → create_block_volume c req s ≡ (ok v, s')
      → create_block_storage_volume c req t ≡ (ok v, s')
  unfolding create_block_volume create_or_find_block
  block_fresh s t s' v missing e =
      let valid = block_volume-valid c req s s' v e in rw (valid, missing) at e

  -- Over a service that finds what it creates, and creates it in the size asked for: where the
  -- lookup of the name found no volume and `CreateVolume` has then made one from no source, of `k`
  -- GiB and `extra` bytes, the same call made again changes nothing. It answers with the same
  -- volume id and capacity, but with no topology, if the size is a whole number of GiB, and with
  -- `AlreadyExists` if it is not.
  pub create_block_volume_again :
      (k extra : ℕ) (s t s' : S) (v : Volume)
      → IsVolumeStore c
      → extra < 2 ^ 30
      → k < 2 ^ 33
      → c.svc.get_block_storage_by_name req.name s ≡ (ok [], t)
      → create_block_volume c req s ≡ (ok v, s')
      → v.capacity_bytes ≡ pos (k * 2 ^ 30 + extra)
      → create_block_volume c req s' ≡ (
        (if extra == 0
            then ok (record {
              volume_id = v.volume_id;
              capacity_bytes = v.capacity_bytes;
              accessible_topology = [];
              content_source = req.volume_content_source;
              volume_context = [];
            })
            else err (status already_exists)),
        s',
      )
  create_block_volume_again k extra s t s' v store below small missing e capacity =
      let (tier, d, valid, made, id) =
        create_block_storage_volume-IsFresh t s' v (block_fresh s t s' v missing e) in
      let request = storage_request v.capacity_bytes tier in
      let size : d.size ≡ pos k =
        store.made-size request t s' d made
        ∙ (ap (λ z. quot z gi_b) capacity ∙ quot-gi_b k extra below) in
      rw (id, capacity)
        (block_again s' d (block_volume-valid c req s s' v e)
            (store.made-only request s t s' d missing made)
          ∙ ap (λ r. (r, s')) (exists_answer k extra d below small (rw capacity at valid) size))
