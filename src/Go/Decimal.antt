-- ===== src/Go/Decimal.antt =====
-- `strconv.Atoi` and `fmt.Sprint` of an `int`, over the bytes of a text.
pub mod RoundTrip
use upcloud_csi.Base.{
  ℕ, zero, suc, ◌+◌, ◌-◌, ◌*◌, ◌/◌, ◌%◌, ◌^◌, ◌≡◌, refl, Bool, ◌||◌, Option, none, some, List, [],
  ◌∷◌, ltb, leb, ◌==◌, if◌then◌else◌, ℤ, pos, negsuc, sub_ℕ,
}

-- The bytes of a text.
abbrev pub Bytes : Type 0
Bytes = List ℕ

-- Digits up to the end, most significant first.
unfoldable pub read_digits : ℕ → Bytes → Option ℕ
read_digits acc [] = some acc
read_digits acc (c ∷ s) =
    let rest = read_digits (acc * 10 + (c - 48)) s in if ltb c 48 || ltb 57 c then none else rest

read_number : Bytes → Option ℕ
read_number [] = none
read_number (c ∷ s) = read_digits 0 (c ∷ s)

-- The range of `int`: a magnitude of at most 2^63 - 1, or 2^63 after a minus sign.
in_range : Option ℕ → ℕ → (ℕ → ℤ) → Option ℤ
in_range none bound f = none
in_range (some n) bound f = if leb n bound then some (f n) else none

unfoldable pub atoi : Bytes → Option ℤ
unfolding read_digits read_number in_range
atoi [] = none
atoi (c ∷ s) =
    if c == b'+'
    then in_range (read_number s) (2 ^ 63 - 1) pos
    else if c == b'-'
    then in_range (read_number s) (2 ^ 63) (λ n. sub_ℕ 0 n)
    else in_range (read_number (c ∷ s)) (2 ^ 63 - 1) pos

-- The digits of `n` in front of `out`; the fuel is a bound on the number of digits.
unfoldable pub show_digits : ℕ → ℕ → Bytes → Bytes
show_digits zero n out = out
show_digits (suc f) n out =
    let rest = show_digits f (n / 10) ((48 + n % 10) ∷ out) in if n == 0 then out else rest

-- `fmt.Sprint(n)` for a number that is not negative. A number has at most `n` digits.
unfoldable pub sprint : ℕ → Bytes
unfolding show_digits
sprint n = if n == 0 then b'0' ∷ [] else show_digits n n []
