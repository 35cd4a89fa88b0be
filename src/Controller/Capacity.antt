-- ===== src/Controller/Capacity.antt =====
-- `validateCapacityRange` of internal/controller/controller_utils.go, and the limits that it is
-- called with.
pub mod Bounds
use upcloud_csi.Base.{ℤ, pos, leb_ℤ, ltb_ℤ, ◌*◌, ◌&&◌, Bool, Option, none, some, if◌then◌else◌}
use upcloud_csi.Go.{Result, ok, err, plain}
use upcloud_csi.Csi.{CapacityRange}
use upcloud_csi.Controller.{gi_b}

abbrev pub min_block_storage_size : ℤ
min_block_storage_size = pos (1 * gi_b)

abbrev pub max_block_storage_size : ℤ
max_block_storage_size = pos (4096 * gi_b)

abbrev pub min_file_storage_size : ℤ
min_file_storage_size = pos (250 * gi_b)

abbrev pub max_file_storage_size : ℤ
max_file_storage_size = pos (25000 * gi_b)

-- What the `switch` leaves in `lo` and `hi`, or how it returns.
pub data Request : Type 0 where
  no_size : Request
  conflict : Request
  between : ℤ → ℤ → Request

read_range : ℤ → ℤ → Request
read_range lo hi =
    if leb_ℤ lo (pos 0) && leb_ℤ hi (pos 0)
    then no_size
    else if leb_ℤ lo (pos 0)
    then between hi hi
    else if leb_ℤ hi (pos 0)
    then between lo lo
    else if ltb_ℤ hi lo
    then conflict
    else between lo hi

choose : Request → ℤ → ℤ → ℤ → ℤ → Result ℤ
choose no_size required limit min_bytes max_bytes = ok min_bytes
choose conflict required limit min_bytes max_bytes =
    err (plain "limit can not be less than required size")
choose (between lo hi) required limit min_bytes max_bytes =
    if ltb_ℤ hi min_bytes
    then err (plain "requested size can not be less than minimum supported volume size")
    else if ltb_ℤ max_bytes lo
    then err (plain "required size can not exceed maximum supported volume size")
    else if ltb_ℤ (pos 0) required
    then ok required
    else ok limit

unfoldable pub validate_capacity_range : Option CapacityRange → ℤ → ℤ → Result ℤ
unfolding read_range choose
validate_capacity_range none min_bytes max_bytes = ok min_bytes
validate_capacity_range (some cr) min_bytes max_bytes =
    choose (read_range cr.required_bytes cr.limit_bytes) cr.required_bytes cr.limit_bytes min_bytes
      max_bytes
