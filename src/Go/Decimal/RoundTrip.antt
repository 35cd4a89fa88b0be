-- ===== src/Go/Decimal/RoundTrip.antt =====
-- A printed number is read back.
use upcloud_csi.Base.{
  ℕ, zero, suc, ◌+◌, ◌-◌, ◌*◌, ◌/◌, ◌%◌, ◌^◌, ◌≤◌, ◌<◌, ◌≡◌, refl, ◌∙◌, some, [], ◌∷◌, arith, ◌==◌,
  Bool-cases, inl, inr, pos, false, ap,
}
use upcloud_csi.Go.Decimal.{Bytes, read_digits, atoi, show_digits, sprint}

-- One digit in front is read first.
read-digit :
    (acc d : ℕ) (out : Bytes)
    → d < 10
    → read_digits acc ((48 + d) ∷ out) ≡ read_digits (acc * 10 + d) out
unfolding read_digits
read-digit acc d out h = let e : 48 + d - 48 ≡ d = omega arith in rw e (ground arith)

show_digits-zero : (f : ℕ) (out : Bytes) → show_digits f 0 out ≡ out
unfolding show_digits
show_digits-zero zero out = refl
show_digits-zero (suc f) out = refl

read-show_digits :
    (f n : ℕ) (out : Bytes) → n ≤ f → read_digits 0 (show_digits f n out) ≡ read_digits n out
unfolding show_digits
read-show_digits zero n out h = let e : n ≡ 0 = omega arith in rw e
read-show_digits (suc f) n out h = elim (Bool-cases (n == 0)) [
  | inl stop ↦ let e : n ≡ 0 = ground arith in rw e
  | inr more ↦
      let e : n / 10 * 10 + n % 10 ≡ n = omega arith in
      rw more (
        read-show_digits f (n / 10) ((48 + n % 10) ∷ out) (ground arith)
        ∙ (read-digit (n / 10) (n % 10) out (omega arith) ∙ rw e))
]

-- The text begins with a digit.
abbrev BeginsWithDigit : Bytes → Type 0
BeginsWithDigit t = (c : ℕ) × (s : Bytes) × (t ≡ c ∷ s) × (48 ≤ c) × (c ≤ 57)

show_digits-BeginsWithDigit :
    (f n : ℕ) (out : Bytes) → n ≤ f → 0 < n → BeginsWithDigit (show_digits f n out)
unfolding show_digits
show_digits-BeginsWithDigit zero n out h p = absurd (omega arith)
show_digits-BeginsWithDigit (suc f) n out h p = elim (Bool-cases (n / 10 == 0)) [
  | inl last ↦
      let e : n / 10 ≡ 0 = ground arith in
      let not_zero : (n == 0) ≡ false = ground arith in
      rw (not_zero, e, show_digits-zero) (48 + n % 10, out, refl, omega arith, omega arith)
  | inr more ↦
      let not_zero : (n == 0) ≡ false = ground arith in
      rw not_zero
        (show_digits-BeginsWithDigit f (n / 10) ((48 + n % 10) ∷ out) (omega arith) (ground arith))
]

atoi_of_digits :
    (t : Bytes) (n : ℕ)
    → BeginsWithDigit t
    → read_digits 0 t ≡ some n
    → n < 2 ^ 63
    → atoi t ≡ some (pos n)
unfolding atoi
atoi_of_digits t n (c, s, e, lo, hi) r h = rw e (ground (arith, ap (read_digits 0) e))

-- `Atoi` reads what `Sprint` prints, for every `int` that is not negative.
pub atoi-sprint : (n : ℕ) → n < 2 ^ 63 → atoi (sprint n) ≡ some (pos n)
unfolding sprint
atoi-sprint n h = elim (Bool-cases (n == 0)) [
  | inl z ↦ let e : n ≡ 0 = ground arith in rw e (unfold atoi in refl)
  | inr more ↦ rw more (
      atoi_of_digits (show_digits n n []) n
        (show_digits-BeginsWithDigit n n [] (omega arith) (ground arith))
        (read-show_digits n n [] (omega arith) ∙ (unfold read_digits in refl)) h)
]
