-- ===== src/Controller/Block/Expand.antt =====
-- Expanding a block storage volume: it is never asked to shrink, and how the size that is promised compares
-- with the size that is required.
use upcloud_csi.Base.{
  ℕ, ℤ, pos, refl, sym, ap, subst, String, ◌∙◌, ◌+◌, ◌*◌, ◌<◌, ◌^◌, ◌≤ℤ◌, ◌<ℤ◌, ◌≡◌, ◌⊎◌, inl, inr,
  some, true, false, leb_ℤ, quot, arith, Bool, not, ltb, Bool-cases, wrap64_id, if◌then◌else◌,
}
use upcloud_csi.Go.{ok, lift, pure, status, out_of_range, map_error, ◌>>◌}
use upcloud_csi.Go.Inversion.{bind-eq-ok, map_error-eq-ok, checked-eq-ok}
use upcloud_csi.Api.{StorageDetails}
use upcloud_csi.Csi.{ExpandRequest, ExpandResponse, CapacityRange}
use upcloud_csi.Controller.{Controller, gi_b, bytes_of}
use upcloud_csi.Controller.Capacity.{
  validate_capacity_range, min_block_storage_size, max_block_storage_size,
}
use upcloud_csi.Controller.Block.{expand_block_storage, wants_block, as_internal}

pub bytes_of-pos : (m : ℕ) → m < 2 ^ 33 → bytes_of (pos m) ≡ pos (m * 2 ^ 30)
unfolding bytes_of
bytes_of-pos m h = ground (arith, wrap64_id (m * 2 ^ 30) (omega arith))

pub quot-gi_b : (k extra : ℕ) → extra < 2 ^ 30 → quot (pos (k * 2 ^ 30 + extra)) gi_b ≡ pos k
unfolding quot
quot-gi_b k extra below = ground arith

-- The API was asked for nothing, and the volume has at least the whole GiB of the size.
record IsKept {S : Type 0} (volume : StorageDetails) (size : ℤ) (s s' : S) (r : ExpandResponse)
    : Type 0 where
  pub enough : quot size gi_b ≤ℤ volume.size
  pub promised : r.capacity_bytes ≡ bytes_of volume.size
  pub unchanged : s ≡ s'

-- The API resized the volume, which was smaller, to the whole GiB of the size.
record IsGrown {S : Type 0} (c : Controller S) (volume : StorageDetails) (size : ℤ) (s s' : S)
    (r : ExpandResponse) : Type 0 where
  pub larger : volume.size <ℤ quot size gi_b
  pub promised : r.capacity_bytes ≡ bytes_of (quot size gi_b)
  pub grown : StorageDetails
  pub resized : c.svc.resize_block_device volume.uuid (quot size gi_b) s ≡ (ok grown, s')

module _ {S : Type 0} (c : Controller S) (req : ExpandRequest) (volume : StorageDetails) where
  expand-IsKept :
      (size : ℤ) (s s' : S) (r : ExpandResponse) (node : Bool)
      → leb_ℤ (quot size gi_b) volume.size ≡ true
      → pure (record { capacity_bytes = bytes_of volume.size; node_expansion_required = node }) s
        ≡ (ok r, s')
      → IsKept volume size s s' r
  expand-IsKept size s s' r node fits e = record {
    enough = ground arith;
    promised = ground arith;
    unchanged = ground arith;
  }

  expand-IsGrown :
      (size : ℤ) (s s' : S) (r : ExpandResponse) (node : Bool)
      → leb_ℤ (quot size gi_b) volume.size ≡ false
      → (do
        map_error as_internal (c.svc.resize_block_device volume.uuid (quot size gi_b))
        pure
            (record { capacity_bytes = bytes_of (quot size gi_b); node_expansion_required = node }))
          s
        ≡ (ok r, s')
      → IsGrown c volume size s s' r
  expand-IsGrown size s s' r node small e =
      let resize = c.svc.resize_block_device volume.uuid (quot size gi_b) in
      let (d, t, resized, e₁) = bind-eq-ok (map_error as_internal resize) _ s s' r e in
      record {
        larger = ground arith;
        promised = ground arith;
        grown = d;
        resized = ground (arith, map_error-eq-ok as_internal resize s t d resized);
      }

  -- The volume was left alone or kept, or the API was asked for the whole GiB of the size.
  expand_block_storage_lem :
      (s s' : S) (r : ExpandResponse)
      → expand_block_storage c req volume s ≡ (ok r, s')
      → (size : ℤ) × (validate_capacity_range req.capacity_range min_block_storage_size
            max_block_storage_size
          ≡ ok size)
        × (IsKept volume size s s' r ⊎ IsGrown c volume size s s' r)
  unfolding expand_block_storage
  expand_block_storage_lem s s' r e =
      let checked =
        validate_capacity_range req.capacity_range min_block_storage_size max_block_storage_size in
      let (size, t, passed, e₁) =
        bind-eq-ok (map_error (λ e. status out_of_range) (lift checked)) _ s s' r e in
      let (valid, same) = checked-eq-ok (λ e. status out_of_range) checked s t size passed in
      let e₂ = rw (← same) at e₁ in
      (
        size,
        valid,
        elim (Bool-cases (leb_ℤ (quot size gi_b) volume.size)) [
          | inl fits ↦ inl (expand-IsKept size s s' r (not (wants_block req)) fits (rw fits at e₂))
          | inr small ↦
              inr (expand-IsGrown size s s' r (not (wants_block req)) small (rw small at e₂))
        ],
      )

  -- The volume after an expansion: the one of before, with nothing changed, or the one that the API
  -- gave back for a resize to the whole GiB of the size, which are more than it had.
  abbrev pub IsAfter : ℤ → StorageDetails → S → S → Type 0
  IsAfter size after s s' =
      ((after ≡ volume) × (s ≡ s'))
      ⊎ ((volume.size <ℤ after.size)
          × (after.size ≡ quot size gi_b)
          × (c.svc.resize_block_device volume.uuid (quot size gi_b) s ≡ (ok after, s')))

  -- Over a service that gives a volume the size that it is asked for: an expansion that succeeds has
  -- the size that `validateCapacityRange` gives for the request. The volume after it is the one of
  -- before, unchanged, or was resized by one call of the service to the whole GiB of that size, rounded
  -- down, which are more than it had. Either way it has at least those GiB, and the capacity that is
  -- reported is the volume's after the expansion.
  pub expand_block_storage_never_shrinks :
      ((id : String) (z : ℤ) (d : StorageDetails) (t t' : S)
        → c.svc.resize_block_device id z t ≡ (ok d, t')
        → d.size ≡ z)
      → (s s' : S) (r : ExpandResponse) → expand_block_storage c req volume s ≡ (ok r, s')
      → (size : ℤ) × (validate_capacity_range req.capacity_range min_block_storage_size
            max_block_storage_size
          ≡ ok size)
        × ((after : StorageDetails) × IsAfter size after s s'
            × (quot size gi_b ≤ℤ after.size)
            × (r.capacity_bytes ≡ bytes_of after.size))
  expand_block_storage_never_shrinks sizes s s' r e =
      let (size, valid, done) = expand_block_storage_lem s s' r e in
      elim done [
        | inl kept ↦ (size, valid, (volume, inl (refl, kept.unchanged), kept.enough, kept.promised))
        | inr grown ↦
            let given = sizes volume.uuid (quot size gi_b) grown.grown s s' grown.resized in
            (
              size,
              valid,
              (
                grown.grown,
                inr (subst (λ z. volume.size <ℤ z) (sym given) grown.larger, given, grown.resized),
                subst (λ z. quot size gi_b ≤ℤ z) (sym given) (omega arith),
                grown.promised ∙ ap bytes_of (sym given),
              ),
            )
      ]

  module _ (k extra n : ℕ) (bounds : CapacityRange) (range : req.capacity_range ≡ some bounds)
      (required : bounds.required_bytes ≡ pos (k * 2 ^ 30 + extra)) (below : extra < 2 ^ 30)
      (size : volume.size ≡ pos n) (small : n < 2 ^ 33) where
    chosen :
        (z : ℤ)
        → 0 < k
        → validate_capacity_range req.capacity_range min_block_storage_size max_block_storage_size
          ≡ ok z
        → (z ≡ pos (k * 2 ^ 30 + extra)) × (k < 2 ^ 33)
    unfolding validate_capacity_range
    chosen z positive e = ground (arith, range, required)

    promise_kept :
        (z : ℤ) (s s' : S) (r : ExpandResponse)
        → z ≡ pos (k * 2 ^ 30 + extra)
        → IsKept volume z s s' r
        → r.capacity_bytes ≡ pos ((if ltb n k then k else n) * 2 ^ 30)
    promise_kept z s s' r value kept =
        let enough : pos k ≤ℤ pos n = rw (value, quot-gi_b k extra below, size) at kept.enough in
        let promised : r.capacity_bytes ≡ pos (n * 2 ^ 30) =
          rw (size, bytes_of-pos n small) at kept.promised in
        ground (arith, enough, promised)

    promise_grown :
        (z : ℤ) (s s' : S) (r : ExpandResponse)
        → z ≡ pos (k * 2 ^ 30 + extra)
        → k < 2 ^ 33
        → IsGrown c volume z s s' r
        → r.capacity_bytes ≡ pos ((if ltb n k then k else n) * 2 ^ 30)
    promise_grown z s s' r value fits grown =
        let larger : pos n <ℤ pos k = rw (value, quot-gi_b k extra below, size) at grown.larger in
        let promised : r.capacity_bytes ≡ pos (k * 2 ^ 30) =
          rw (value, quot-gi_b k extra below, bytes_of-pos k fits) at grown.promised in
        ground (arith, larger, promised)

    -- What an expansion promises, where it succeeds, for a required size of `k` GiB and fewer than
    -- 2^30 `extra` bytes, `k` positive, and a volume of `n` GiB, `n` below 2^33: the larger of `k`
    -- and `n`, in GiB. The extra bytes are lost.
    pub expand_block_storage_promise :
        (s s' : S) (r : ExpandResponse)
        → 0 < k
        → expand_block_storage c req volume s ≡ (ok r, s')
        → r.capacity_bytes ≡ pos ((if ltb n k then k else n) * 2 ^ 30)
    expand_block_storage_promise s s' r positive e =
        let (z, valid, done) = expand_block_storage_lem s s' r e in
        let (value, fits) = chosen z positive valid in
        elim done [
          | inl kept ↦ promise_kept z s s' r value kept
          | inr grown ↦ promise_grown z s s' r value fits grown
        ]
