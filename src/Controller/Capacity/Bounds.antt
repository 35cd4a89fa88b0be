-- ===== src/Controller/Capacity/Bounds.antt =====
-- Which capacity ranges `validateCapacityRange` accepts, and the size that it returns.
use upcloud_csi.Base.{ℤ, pos, ◌≤ℤ◌, ◌<ℤ◌, ltb_ℤ, ◌≡◌, ◌⊎◌, ◌↔◌, some, arith, if◌then◌else◌}
use upcloud_csi.Go.{ok}
use upcloud_csi.Csi.{CapacityRange}
use upcloud_csi.Controller.Capacity.{validate_capacity_range}

-- The sizes that a range allows: a bound that is not set is the one that is.
abbrev pub lower : CapacityRange → ℤ
lower cr = if ltb_ℤ (pos 0) cr.required_bytes then cr.required_bytes else cr.limit_bytes

abbrev pub upper : CapacityRange → ℤ
upper cr = if ltb_ℤ (pos 0) cr.limit_bytes then cr.limit_bytes else cr.required_bytes

-- Some size lies in the range and between the limits of the storage.
abbrev pub IsSatisfiable : CapacityRange → ℤ → ℤ → Type 0
IsSatisfiable cr min_bytes max_bytes =
    (z : ℤ) × (lower cr ≤ℤ z) × (z ≤ℤ upper cr) × (min_bytes ≤ℤ z) × (z ≤ℤ max_bytes)

-- The range sets at least one of its bounds.
abbrev pub IsAsked : CapacityRange → Type 0
IsAsked cr = (pos 0 <ℤ cr.required_bytes) ⊎ (pos 0 <ℤ cr.limit_bytes)

module _ (cr : CapacityRange) (min_bytes max_bytes : ℤ) where
  accepted-IsSatisfiable :
      {v : ℤ}
      → min_bytes ≤ℤ max_bytes
      → IsAsked cr
      → validate_capacity_range (some cr) min_bytes max_bytes ≡ ok v
      → IsSatisfiable cr min_bytes max_bytes
  unfolding validate_capacity_range
  accepted-IsSatisfiable order asked e = (
    if ltb_ℤ (lower cr) min_bytes then min_bytes else lower cr,
    ground arith,
    ground arith,
    ground arith,
    ground arith,
  )

  accepted_value :
      (v : ℤ)
      → IsAsked cr
      → validate_capacity_range (some cr) min_bytes max_bytes ≡ ok v
      → v ≡ lower cr
  unfolding validate_capacity_range
  accepted_value v asked e = ground arith

  satisfiable_accepted :
      IsAsked cr
      → IsSatisfiable cr min_bytes max_bytes
      → validate_capacity_range (some cr) min_bytes max_bytes ≡ ok (lower cr)
  unfolding validate_capacity_range
  satisfiable_accepted asked (z, a, b, c, d) = ground arith

  -- For a minimum that is not above the maximum, a range that sets a bound is accepted exactly when
  -- some size lies both in the range and between the limits, and the size returned is then the
  -- required one, or the limit where no size is required.
  pub validate_capacity_range_iff :
      (v : ℤ)
      → min_bytes ≤ℤ max_bytes
      → IsAsked cr
      → (validate_capacity_range (some cr) min_bytes max_bytes ≡ ok v)
        ↔ ((v ≡ lower cr) × IsSatisfiable cr min_bytes max_bytes)
  validate_capacity_range_iff v order asked = (
    λ e. (accepted_value v asked e, accepted-IsSatisfiable order asked e),
    λ (same, fits). rw same (satisfiable_accepted asked fits),
  )

  -- For a minimum that is not above the maximum, an accepted size never exceeds the maximum. It is
  -- at least the minimum, unless it is the required size and the limit of the range is not below
  -- the minimum.
  validate_capacity_range_bounds :
      (v : ℤ)
      → min_bytes ≤ℤ max_bytes
      → validate_capacity_range (some cr) min_bytes max_bytes ≡ ok v
      → (v ≤ℤ max_bytes)
        × ((min_bytes ≤ℤ v) ⊎ ((v ≡ cr.required_bytes) × (min_bytes ≤ℤ cr.limit_bytes)))
  unfolding validate_capacity_range
  validate_capacity_range_bounds v order e = ground arith

  -- For a minimum that is not above the maximum: whenever a range requires a positive size below
  -- the minimum and its limit reaches the minimum, the size returned is the required one, which is
  -- below the minimum.
  validate_capacity_range_undersized :
      pos 0 <ℤ cr.required_bytes
      → cr.required_bytes <ℤ min_bytes
      → min_bytes ≤ℤ cr.limit_bytes
      → min_bytes ≤ℤ max_bytes
      → validate_capacity_range (some cr) min_bytes max_bytes ≡ ok cr.required_bytes
  unfolding validate_capacity_range
  validate_capacity_range_undersized positive small limit order = ground arith
