-- ===== src/Controller/Requests/Laws.antt =====
-- What the checks of requests guarantee, and the labels read from the command line.
use Prim.Native.Char.{Char, code}
use text.Mathlib.TextLemmas.{nil-append, cons-append}
use text.Mathlib.TextEquality.{Char-path}
use upcloud_csi.Base.{
  ◌<>◌, ◌||◌, keep, map, Bool, true, sym, ◌≡◌, ◌≢◌, refl, ◌∙◌, ap, ◌↔◌, Bool-cases, Option-cases,
  inl, inr, ◌⊎◌, Option, none, some, List, [], ◌∷◌, String, StringMap, lookup, All, arith, str_eq,
  eq_iff, ◌==◌, false, if◌then◌else◌,
}
use upcloud_csi.Go.{Result, ok, err, status, invalid_argument}
use upcloud_csi.Api.{Label}
use upcloud_csi.Csi.{CreateVolumeRequest, VolumeCapability, ContentSource}
use upcloud_csi.Controller.{Library, topology_region_key}
use upcloud_csi.Controller.Capabilities.{validate_capabilities, validate_file_storage_capabilities}
use upcloud_csi.Controller.Capabilities.Laws.{
  IsSetList, IsBlockUse, IsFileUse, validate_capabilities_iff,
  validate_file_storage_capabilities_iff,
}
use upcloud_csi.Controller.Requests.{
  split_label, upcloud_labels, in_zone, check_topology, no_violations, some_capabilities,
  no_content_source, validate_create_volume_request, validate_file_storage_create_volume_request,
}

-- The topology names no region, or the zone.
abbrev pub IsInZone : String → StringMap → Type 0
IsInZone zone t = (lookup topology_region_key t ≡ none) ⊎ (lookup topology_region_key t ≡ some zone)

abbrev pub AllInZone : String → Option (List StringMap) → Type 0
AllInZone zone none = Unit
AllInZone zone (some ts) = All (IsInZone zone) ts

in_zone_iff :
    (zone : String) (ts : List StringMap) → (in_zone zone ts ≡ ok tt) ↔ All (IsInZone zone) ts
unfolding in_zone
in_zone_iff zone [] = (λ _. tt, λ _. refl)
in_zone_iff zone (t ∷ ts) = elim (Option-cases (lookup topology_region_key t)) [
  | inl absent ↦ ground (arith, in_zone_iff zone ts)
  | inr (region, found) ↦ ground (arith, in_zone_iff zone ts, eq_iff region zone)
]

check_topology_iff :
    (zone : String) (o : Option (List StringMap))
    → (check_topology zone o ≡ ok tt) ↔ AllInZone zone o
unfolding check_topology
check_topology_iff zone none = (λ _. tt, λ _. refl)
check_topology_iff zone (some ts) = in_zone_iff zone ts

no_violations_iff :
    (vs : List String) (rest : Result (Unit {0}))
    → (no_violations vs rest ≡ ok tt) ↔ ((vs ≡ []) × (rest ≡ ok tt))
unfolding no_violations
no_violations_iff [] rest = ground arith
no_violations_iff (v ∷ vs) rest = ground arith

some_capabilities_iff :
    (caps : List VolumeCapability) (rest : Result (Unit {0}))
    → (some_capabilities caps rest ≡ ok tt) ↔ ((caps ≢ []) × (rest ≡ ok tt))
unfolding some_capabilities
some_capabilities_iff [] rest = ground arith
some_capabilities_iff (c ∷ cs) rest = ground arith

no_content_source_iff :
    (o : Option ContentSource) (rest : Result (Unit {0}))
    → (no_content_source o rest ≡ ok tt) ↔ ((o ≡ none) × (rest ≡ ok tt))
unfolding no_content_source
no_content_source_iff none rest = ground arith
no_content_source_iff (some s) rest = ground arith

named_iff :
    (name : String) (rest : Result (Unit {0}))
    → ((if str_eq name "" then err (status invalid_argument) else rest) ≡ ok tt)
      ↔ ((name ≢ "") × (rest ≡ ok tt))
named_iff name rest = elim (Bool-cases (str_eq name "")) [
  | inl empty ↦
      rw empty (λ e. absurd (cc e), λ (filled, _). absurd (filled ((eq_iff name "").0 empty)))
  | inr filled ↦ rw filled (λ e. (λ empty. absurd (cc ((eq_iff name "").1 empty)), e), λ (_, e). e)
]

module _ (l : Library) (s : IsSetList l) (r : CreateVolumeRequest) (zone : String) where
  -- Given that a set of texts lists nothing exactly if nothing was inserted: a request for block
  -- storage passes the check exactly if it has a name and capabilities, every capability is one of
  -- block storage, and no requisite topology names a region other than the zone.
  pub validate_create_volume_request_iff : (validate_create_volume_request l r zone ≡ ok tt) ↔ (
      (r.name ≢ "")
      × (r.volume_capabilities ≢ [])
      × All IsBlockUse r.volume_capabilities
      × AllInZone zone r.requisite)
  unfolding validate_create_volume_request
  validate_create_volume_request_iff =
      let topology = check_topology zone r.requisite in
      let judged = no_violations (validate_capabilities l r.volume_capabilities) topology in
      let (a, a') = named_iff r.name (some_capabilities r.volume_capabilities judged) in
      let (b, b') = some_capabilities_iff r.volume_capabilities judged in
      let (v, v') = no_violations_iff (validate_capabilities l r.volume_capabilities) topology in
      let (u, u') = validate_capabilities_iff l s r.volume_capabilities in
      let (t, t') = check_topology_iff zone r.requisite in
      (
        λ e. ((a e).0, (b (a e).1).0, u (v (b (a e).1).1).0, t (v (b (a e).1).1).1),
        λ (name, caps, uses, zones). a' (name, b' (caps, v' (u' uses, t' zones))),
      )

  -- Given that a set of texts lists nothing exactly if nothing was inserted: a request for file
  -- storage passes the check exactly if it has a name and capabilities, every capability is one of
  -- file storage, it names no content source, and no requisite topology names a region other than
  -- the zone.
  pub validate_file_storage_create_volume_request_iff :
      (validate_file_storage_create_volume_request l r zone ≡ ok tt) ↔ (
        (r.name ≢ "")
        × (r.volume_capabilities ≢ [])
        × All IsFileUse r.volume_capabilities
        × (r.volume_content_source ≡ none)
        × AllInZone zone r.requisite)
  unfolding validate_file_storage_create_volume_request
  validate_file_storage_create_volume_request_iff =
      let topology = check_topology zone r.requisite in
      let sourced = no_content_source r.volume_content_source topology in
      let judged =
        no_violations (validate_file_storage_capabilities l r.volume_capabilities) sourced in
      let (a, a') = named_iff r.name (some_capabilities r.volume_capabilities judged) in
      let (b, b') = some_capabilities_iff r.volume_capabilities judged in
      let (v, v') =
        no_violations_iff (validate_file_storage_capabilities l r.volume_capabilities) sourced in
      let (u, u') = validate_file_storage_capabilities_iff l s r.volume_capabilities in
      let (o, o') = no_content_source_iff r.volume_content_source topology in
      let (t, t') = check_topology_iff zone r.requisite in
      (
        λ e.
            let rest = v (b (a e).1).1 in
            ((a e).0, (b (a e).1).0, u rest.0, (o rest.1).0, t (o rest.1).1),
        λ (name, caps, uses, source, zones).
            a' (name, b' (caps, v' (u' uses, o' (source, t' zones)))),
      )

join_here : (c : Char) (s : String) → code c ≡ 61 → "" <> ("=" <> s) ≡ String.◌∷◌ c s
join_here c s e =
    nil-append ("=" <> s)
    ∙ (cons-append "=" "" s
        ∙ (ap (λ t. String.◌∷◌ "=" t) (nil-append s)
            ∙ ap (λ d. String.◌∷◌ d s) (Char-path "=" c (sym e))))

-- The parts of a label, joined by `=` again, are the text that was split.
pub split_label-join : (l k v : String) → split_label l ≡ some (k, v) → k <> ("=" <> v) ≡ l
unfolding split_label
split_label-join String.[] k v e = cc
split_label-join (String.◌∷◌ c s) k v e = elim (Bool-cases (code c == b'=')) [
  | inl here ↦ ground (arith, join_here c s (ground arith))
  | inr later ↦ elim (Option-cases (split_label s)) [
    | inl missing ↦ ground (arith, missing)
    | inr ((k', v'), found) ↦
        ground (arith, found, split_label-join s k' v' found, cons-append c k' ("=" <> v'))
  ]
]

-- The text has an equals sign.
pub has_equals : String → Bool
has_equals String.[] = false
has_equals (String.◌∷◌ c s) = code c == b'=' || has_equals s

split_label-eq-none : (l : String) → has_equals l ≡ false → split_label l ≡ none
unfolding split_label has_equals
split_label-eq-none String.[] e = refl
split_label-eq-none (String.◌∷◌ c s) e = ground (arith, split_label-eq-none s)

split_label-ne-none : (l : String) → has_equals l ≡ true → split_label l ≢ none
unfolding split_label has_equals
split_label-ne-none String.[] e = cc
split_label-ne-none (String.◌∷◌ c s) e = ground (arith, split_label-ne-none s)

abbrev pub label_text : Label → String
label_text l = l.key <> ("=" <> l.value)

-- The storage labels are the texts of the list that have an equals sign, in order and each in full.
map-upcloud_labels : (ls : List String) → map label_text (upcloud_labels ls) ≡ keep has_equals ls
unfolding upcloud_labels
map-upcloud_labels [] = refl
map-upcloud_labels (l ∷ ls) = elim (Option-cases (split_label l)) [
  | inl absent ↦ ground (arith, split_label-ne-none l, map-upcloud_labels ls)
  | inr ((k, v), found) ↦
      ground (arith, split_label-eq-none l, split_label-join l k v found, map-upcloud_labels ls)
]
