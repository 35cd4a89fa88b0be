-- ===== src/Controller/Pages/Walk.antt =====
-- Pages of a list: bounds, panics, tokens, and the walk from one page to the next.
use upcloud_csi.Base.{
  ℕ, zero, suc, ℤ, pos, negsuc, ◌+◌, ◌-◌, ◌^◌, ◌≤◌, ◌<◌, ◌≡◌, refl, ap, List, [], some, ◌∷◌, length,
  take, drop, length-drop, length-take-le, arith, wrap64_id, leb, ◌==◌, ◌||◌, if◌then◌else◌,
}
use upcloud_csi.Go.{ok, panic}
use upcloud_csi.Go.Decimal.{Bytes, sprint, atoi}
use upcloud_csi.Go.Decimal.RoundTrip.{atoi-sprint}
use upcloud_csi.Controller.Pages.{slice, paginate_storage, parse_token}

module _ {A : Type 0} where
  -- The page from `start` of at most `size` items, all of the rest where `size` is 0, and where the
  -- next page starts, 0 after the last one.
  abbrev pub page_at : List A → ℕ → ℕ → List A × ℤ
  page_at s start size =
      if (size == 0) || leb (length s) (start + size)
      then (drop start s, pos 0)
      else (take size (drop start s), pos (start + size))

  take_all : (xs : List A) (n : ℕ) → length xs ≤ n → take n xs ≡ xs
  take_all [] zero h = refl
  take_all [] (suc n) h = refl
  take_all (x ∷ xs) zero h = absurd (omega arith)
  take_all (x ∷ xs) (suc n) h = ap (λ l. x ∷ l) (take_all xs n (omega arith))

  drop_all : (xs : List A) (n : ℕ) → length xs ≤ n → drop n xs ≡ []
  drop_all [] zero h = refl
  drop_all [] (suc n) h = refl
  drop_all (x ∷ xs) zero h = absurd (omega arith)
  drop_all (x ∷ xs) (suc n) h = drop_all xs n (omega arith)

  take_rest : (s : List A) (start : ℕ) → take (length s - start) (drop start s) ≡ drop start s
  take_rest s start =
      take_all (drop start s) (length s - start) (omega (arith, length-drop start s))

  take_none : (xs : List A) (n : ℕ) → n ≡ 0 → take n xs ≡ []
  take_none xs n e = rw e

  -- For a start and a page size that are not negative and whose sum is below 2^63 there is no panic
  -- and no error: the page and the start of the next page are those of `page_at`.
  pub paginate_storage-page_at :
      (s : List A) (start size : ℕ)
      → start + size < 2 ^ 63
      → paginate_storage s (pos start) (pos size) ≡ ok (page_at s start size)
  unfolding paginate_storage slice
  paginate_storage-page_at s start size small = ground (
    arith,
    take_rest s start,
    wrap64_id (start + size) small,
    take_none (drop (length s) s) (length s - length s),
    drop_all s start,
  )

  -- A page is no longer than the page size, where one is given.
  pub length-page_at :
      (s : List A) (start size : ℕ) → 0 < size → length (page_at s start size).0 ≤ size
  length-page_at s start size positive =
      ground (arith, length-drop start s, length-take-le size (drop start s))

  -- A start below zero, which a token can name, panics, whatever the list and the page size.
  paginate_storage_negative :
      (s : List A) (n : ℕ) (size : ℤ) → paginate_storage s (negsuc n) size ≡ panic
  unfolding paginate_storage slice
  paginate_storage_negative s n size = ground arith

parse_token_of_atoi : (t : Bytes) (n : ℤ) → atoi t ≡ some n → parse_token t ≡ ok n
unfolding parse_token atoi
parse_token_of_atoi [] n e = cc
parse_token_of_atoi (c ∷ t) n e = ground (arith, e)

-- The token of a page that starts below 2^63 is read back as the start of that page.
pub parse_token-sprint : (n : ℕ) → n < 2 ^ 63 → parse_token (sprint n) ≡ ok (pos n)
parse_token-sprint n h = parse_token_of_atoi (sprint n) (pos n) (atoi-sprint n h)
