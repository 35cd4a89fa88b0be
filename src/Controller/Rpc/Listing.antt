-- ===== src/Controller/Rpc/Listing.antt =====
-- `ListVolumes` page by page: a client that follows the tokens sees every volume once, in order.
use mathlib.Core.List.{map-append}
use upcloud_csi.Base.{
  ltb, Bool, true, false, String, ℕ, zero, suc, pos, ◌+◌, ◌^◌, ◌≤◌, ◌<◌, ◌≡◌, refl, ap, List, [],
  ◌∷◌, ◌++◌, map, length, take, drop, keep, take-append-drop, drop-drop, arith, Bool-cases, inl,
  inr, leb, if◌then◌else◌, str_eq,
}
use upcloud_csi.Go.{Action, ok, panic, pure, ◌>>=◌}
use upcloud_csi.Go.Decimal.{Bytes}
use upcloud_csi.Api.{Storage, FileStorage}
use upcloud_csi.Csi.{VolumeEntry}
use upcloud_csi.Controller.{Controller}
use upcloud_csi.Controller.Pages.{parse_token}
use upcloud_csi.Controller.Pages.Walk.{page_at, paginate_storage-page_at, parse_token-sprint}
use upcloud_csi.Controller.Snapshot.{next_token_of}
use upcloud_csi.Controller.Rpc.{list_volumes, volume_entry, file_as_storage}

parse_token-next_token_of : (n : ℕ) → n < 2 ^ 63 → parse_token (next_token_of (pos n)) ≡ ok (pos n)
unfolding parse_token
parse_token-next_token_of zero h = refl
parse_token-next_token_of (suc n) h =
    let e : ltb 0 (suc n + 0) ≡ true = ground arith in rw e (parse_token-sprint (suc n) h)

abbrev pub is_empty : Bytes → Bool
is_empty [] = true
is_empty (b ∷ bs) = false

not_empty : (t : Bytes) (n : ℕ) → parse_token t ≡ ok (pos (suc n)) → is_empty t ≡ false
unfolding parse_token
not_empty [] n e = absurd (ground arith)
not_empty (b ∷ bs) n e = refl

next_token_of-not_empty : (n : ℕ) → 0 < n → n < 2 ^ 63 → is_empty (next_token_of (pos n)) ≡ false
next_token_of-not_empty zero positive h = absurd (omega arith)
next_token_of-not_empty (suc n) positive h =
    not_empty (next_token_of (pos (suc n))) n (parse_token-next_token_of (suc n) h)

module _ {S : Type 0} (c : Controller S) (size : ℕ) where
  -- A client that asks for pages of `size` volumes until it gets no token. Without fuel it panics.
  pub walk : ℕ → Bytes → Action S (List VolumeEntry)
  walk zero token = λ s. (panic, s)
  walk (suc fuel) token = do
    page ← list_volumes c (record { starting_token = token; max_entries = pos size })
    if is_empty page.next_token
        then pure page.entries
        else (do rest ← walk fuel page.next_token; pure (page.entries ++ rest))

-- The volumes of the zone: block storage, then file storage.
abbrev pub all_volumes : String → List Storage → List FileStorage → List Storage
all_volumes zone storages files =
    storages ++ map file_as_storage (keep (λ fs. str_eq fs.zone zone) files)

-- A page and what comes after it.
page_and_rest :
    (size start : ℕ) (xs : List Storage)
    → map volume_entry (take size (drop start xs)) ++ map volume_entry (drop (start + size) xs)
      ≡ map volume_entry (drop start xs)
page_and_rest size start xs = rw (← map-append, ← drop-drop size start xs, take-append-drop)

module _ {S : Type 0} (c : Controller S) (s : S) (storages : List Storage)
    (files : List FileStorage)
    (blocks_listed : c.svc.list_block_storage c.zone s ≡ (ok storages, s))
    (files_listed : c.svc.get_file_storages s ≡ (ok files, s)) where
  abbrev all : List Storage
  all = all_volumes c.zone storages files

  list_volumes-page_at :
      (start size : ℕ)
      → start + size < 2 ^ 63
      → list_volumes c
          (record { starting_token = next_token_of (pos start); max_entries = pos size })
          s
        ≡ (
          ok (record {
            entries = map volume_entry (page_at all start size).0;
            next_token = next_token_of (page_at all start size).1;
          }),
          s,
        )
  unfolding list_volumes
  list_volumes-page_at start size small = rw (
    parse_token-next_token_of start (omega arith),
    blocks_listed,
    files_listed,
    paginate_storage-page_at all start size small,
  )

  walk_from :
      (size fuel start : ℕ)
      → 0 < size
      → length all + size < 2 ^ 63
      → start ≤ length all
      → length all < start + fuel
      → walk c size fuel (next_token_of (pos start)) s ≡ (ok (map volume_entry (drop start all)), s)
  unfolding walk
  walk_from size zero start positive small inside enough = absurd (omega arith)
  walk_from size (suc fuel) start positive small inside enough =
      elim (Bool-cases (leb (length all) (start + size))) [
        | inl last ↦
            let here : page_at all start size ≡ (drop start all, pos 0) = ground arith in
            rw (list_volumes-page_at start size (omega arith), here) refl
        | inr more ↦
            let room : start + size < length all = ground arith in
            let here : page_at all start size ≡ (take size (drop start all), pos (start + size)) =
              ground arith in
            rw
              (
                list_volumes-page_at start size (omega arith),
                here,
                next_token_of-not_empty (start + size) (omega arith) (omega arith),
                walk_from size fuel (start + size) positive small (omega arith) (omega arith),
              )
              (ap (λ l. (ok l, s)) (page_and_rest size start all))
      ]

  -- Over a cloud that answers the two listings and does not change, whose number of volumes and the
  -- page size add up to less than 2^63: a client that asks `ListVolumes` for pages of that size,
  -- which is positive, and follows the tokens gets every volume of the zone once and in order,
  -- within one call more than there are volumes.
  pub walk-all :
      (size : ℕ)
      → 0 < size
      → length all + size < 2 ^ 63
      → walk c size (suc (length all)) [] s ≡ (ok (map volume_entry all), s)
  walk-all size positive small =
      walk_from size (suc (length all)) 0 positive small (omega arith) (omega arith)
