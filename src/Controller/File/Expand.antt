-- ===== src/Controller/File/Expand.antt =====
-- The expansion of a file storage volume (internal/controller/controller_file_storage.go).
use upcloud_csi.Base.{ℤ, ◌≤ℤ◌, ◌<ℤ◌, leb_ℤ, quot, ◌≡◌, ◌⊎◌, inl, inr, false, arith, Bool-cases}
use upcloud_csi.Go.{ok, status, internal, out_of_range, pure, lift, map_error, ◌>>=◌}
use upcloud_csi.Go.Inversion.{bind-eq-ok, map_error-eq-ok, checked-eq-ok}
use upcloud_csi.Api.{FileStorage}
use upcloud_csi.Csi.{ExpandRequest, ExpandResponse}
use upcloud_csi.Controller.{Controller, gi_b, bytes_of}
use upcloud_csi.Controller.Capacity.{
  validate_capacity_range, min_file_storage_size, max_file_storage_size,
}
use upcloud_csi.Controller.File.{expand_file_storage}

module _ {S : Type 0} (c : Controller S) where
  expand_grown :
      (size : ℤ) (fs : FileStorage) (s s' : S) (r : ExpandResponse)
      → leb_ℤ (quot size gi_b) fs.size_gib ≡ false
      → (do
        modified ←
            map_error (λ e. status internal) (c.svc.modify_file_storage fs.uuid (quot size gi_b))
        pure (record {
          capacity_bytes = bytes_of modified.size_gib;
          node_expansion_required = false;
        }))
          s
        ≡ (ok r, s')
      → (fs.size_gib <ℤ quot size gi_b)
        × (modified : FileStorage) × (c.svc.modify_file_storage fs.uuid (quot size gi_b) s
            ≡ (ok modified, s'))
        × (r.capacity_bytes ≡ bytes_of modified.size_gib)
  expand_grown size fs s s' r small e =
      let modify = c.svc.modify_file_storage fs.uuid (quot size gi_b) in
      let (d, t, done, e₁) = bind-eq-ok (map_error (λ e. status internal) modify) _ s s' r e in
      (
        ground arith,
        d,
        ground (arith, map_error-eq-ok (λ e. status internal) modify s t d done),
        ground arith,
      )

  -- An expansion of file storage that succeeds has chosen a size that the capacity range and the
  -- limits of file storage allow. It left the volume alone, which is at least that large, or it had
  -- the volume enlarged to it and answers with the size that the API reports.
  expand_file_storage_never_shrinks :
      (req : ExpandRequest) (fs : FileStorage) (s s' : S) (r : ExpandResponse)
      → expand_file_storage c req fs s ≡ (ok r, s')
      → (size : ℤ) × (validate_capacity_range req.capacity_range min_file_storage_size
            max_file_storage_size
          ≡ ok size)
        × (((quot size gi_b ≤ℤ fs.size_gib) × (r.capacity_bytes ≡ bytes_of fs.size_gib) × (s ≡ s'))
            ⊎ ((fs.size_gib <ℤ quot size gi_b)
                × (modified : FileStorage) × (c.svc.modify_file_storage fs.uuid (quot size gi_b) s
                    ≡ (ok modified, s'))
                × (r.capacity_bytes ≡ bytes_of modified.size_gib)))
  unfolding expand_file_storage
  expand_file_storage_never_shrinks req fs s s' r e =
      let checked =
        validate_capacity_range req.capacity_range min_file_storage_size max_file_storage_size in
      let (size, t, passed, e₁) =
        bind-eq-ok (map_error (λ e. status out_of_range) (lift checked)) _ s s' r e in
      let (valid, same) = checked-eq-ok (λ e. status out_of_range) checked s t size passed in
      let e₂ = rw (← same) at e₁ in
      (
        size,
        valid,
        elim (Bool-cases (leb_ℤ (quot size gi_b) fs.size_gib)) [
          | inl fits ↦ let e₃ = rw fits at e₂ in inl (ground arith, ground arith, ground arith)
          | inr small ↦ inr (expand_grown size fs s s' r small (rw small at e₂))
        ],
      )
