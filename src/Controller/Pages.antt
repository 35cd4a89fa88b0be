-- ===== src/Controller/Pages.antt =====
-- `parseToken` and `paginateStorage` of internal/controller/controller.go. A slice expression whose
-- bounds are out of order or negative panics.
pub mod Walk
use upcloud_csi.Base.{
  ℕ, ℤ, pos, negsuc, ◌+ℤ◌, ◌-◌, leb_ℤ, ltb_ℤ, leb, eqb_ℤ, ◌&&◌, ◌||◌, Bool, Option, none, some,
  List, [], ◌∷◌, length, take, drop, if◌then◌else◌, wrap64,
}
use upcloud_csi.Go.{Result, ok, err, panic, plain}
use upcloud_csi.Go.Decimal.{Bytes, atoi}

unfoldable pub parse_token : Bytes → Result ℤ
parse_token [] = ok (pos 0)
parse_token (c ∷ s) = elim (atoi (c ∷ s)) [ none ↦ err (plain "Atoi") | some n ↦ ok n ]

module _ {A : Type 0} where
  -- `s[lo:hi]`
  unfoldable pub slice : List A → ℤ → ℤ → Result (List A)
  slice s (pos lo) (pos hi) =
      if leb lo hi && leb hi (length s) then ok (take (hi - lo) (drop lo s)) else panic
  slice s (pos lo) (negsuc hi) = panic
  slice s (negsuc lo) hi = panic

  abbrev page : Result (List A) → ℤ → Result (List A × ℤ)
  page (ok s) next = ok (s, next)
  page (err e) next = err e
  page panic next = panic

  unfoldable pub paginate_storage : List A → ℤ → ℤ → Result (List A × ℤ)
  unfolding slice wrap64
  paginate_storage s start size =
      let len = pos (length s) in
      if ltb_ℤ len start
      then page (slice s len len) (pos 0)
      else if eqb_ℤ size (pos 0)
      then page (slice s start len) (pos 0)
      else let next = wrap64 (start +ℤ size) in
        if leb_ℤ len next || eqb_ℤ size (pos 0)
        then page (slice s start len) (pos 0)
        else page (slice s start next) next
