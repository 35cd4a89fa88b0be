-- ===== src/Tests/Sizes.antt =====
-- Capacities, pages and tokens.
use upcloud_csi.Base.{ℕ, pos, negsuc, ◌^◌, ◌≡◌, ◌↔◌, inl, refl, arith, some, none, [], ◌∷◌}
use upcloud_csi.Go.{ok}
use upcloud_csi.Go.Decimal.{atoi, sprint}
use upcloud_csi.Csi.{CapacityRange}
use upcloud_csi.Controller.Capacity.{
  validate_capacity_range, min_block_storage_size, max_block_storage_size,
}
use upcloud_csi.Controller.Capacity.Bounds.{IsSatisfiable, validate_capacity_range_iff}
use upcloud_csi.Controller.Pages.{paginate_storage}
use upcloud_csi.Controller.Pages.Walk.{paginate_storage-page_at}
use upcloud_csi.Tests.Fixtures.{at_least}

-- Half a GiB is required, and at most 2 GiB are wanted.
abbrev half : CapacityRange
half = record { required_bytes = pos (2 ^ 29); limit_bytes = pos (2 ^ 31) }

atoi_negative : atoi (b'-' ∷ b'1' ∷ b'2' ∷ []) ≡ some (negsuc 11)
unfolding atoi
atoi_negative = refl

atoi_junk : atoi (b'1' ∷ b'x' ∷ []) ≡ none
unfolding atoi
atoi_junk = refl

sprint_zeros : sprint 120 ≡ b'1' ∷ b'2' ∷ b'0' ∷ []
unfolding sprint
sprint_zeros = refl

validate_capacity_range_iff_example :
    (validate_capacity_range
        (some (at_least (2 ^ 31)))
        min_block_storage_size
        max_block_storage_size
      ≡ ok (pos (2 ^ 31)))
    ↔ ((pos (2 ^ 31) ≡ pos (2 ^ 31))
        × IsSatisfiable (at_least (2 ^ 31)) min_block_storage_size max_block_storage_size)
validate_capacity_range_iff_example =
    validate_capacity_range_iff (at_least (2 ^ 31)) min_block_storage_size max_block_storage_size
      (pos (2 ^ 31)) (omega arith) (inl (omega arith))

half_accepted :
    validate_capacity_range (some half) min_block_storage_size max_block_storage_size
    ≡ ok (pos (2 ^ 29))
unfolding validate_capacity_range
half_accepted = refl

paginate_storage-page_at_example :
    paginate_storage {A = ℕ} (5 ∷ 6 ∷ 7 ∷ []) (pos 1) (pos 1) ≡ ok (6 ∷ [], pos 2)
paginate_storage-page_at_example =
    paginate_storage-page_at {A = ℕ} (5 ∷ 6 ∷ 7 ∷ []) 1 1 (omega arith)
