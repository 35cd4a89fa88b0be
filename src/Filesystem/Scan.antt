-- ===== src/Filesystem/Scan.antt =====
-- What the loops over a partition's name and over the answer of sfdisk find
-- (internal/filesystem/linux_filesystem.go, internal/filesystem/linux_utils.go).
use upcloud_csi.Base.{
  ◌≡◌, refl, ◌∙◌, sym, subst, ap, arith, Bool, true, false, not, ◌&&◌, none, some, Option-cases,
  List, [], ◌∷◌, ◌++◌, String, starts_with, str_eq, Bool-cases, inl, inr,
}
use upcloud_csi.Go.{ok}
use upcloud_csi.Go.Text.{split, trim_space}
use upcloud_csi.Filesystem.Disks.{last_line_of, sfdisk_output_get_last_partition}
use upcloud_csi.Filesystem.Resize.{is_digit, reverse_onto, last_digits, extract_partition_number}
use Prim.Native.Char.{Char}

-- The text that `reverse_onto` has taken apart, in front of the rest.
abbrev pub unread : List Char → String → String
unread [] s = s
unread (c ∷ cs) s = unread cs (String.◌∷◌ c s)

-- Whether every character is a digit.
abbrev pub all_digits : String → Bool
all_digits String.[] = true
all_digits (String.◌∷◌ c s) = is_digit c && all_digits s

-- The characters, last first, are none or begin with one that is no digit.
abbrev pub stops : List Char → Bool
stops [] = true
stops (c ∷ cs) = not (is_digit c)

unread-reverse_onto : (s : String) (cs : List Char) → unread (reverse_onto s cs) "" ≡ unread cs s
unread-reverse_onto String.[] cs = refl
unread-reverse_onto (String.◌∷◌ c s) cs = unread-reverse_onto s (c ∷ cs)

last_digits_lem :
    (cs : List Char) (kept : String)
    → all_digits kept ≡ true
    → (front : List Char) × (unread front (last_digits cs kept) ≡ unread cs kept)
      × (all_digits (last_digits cs kept) ≡ true)
      × (stops front ≡ true)
last_digits_lem [] kept h = ([], refl, h, refl)
last_digits_lem (c ∷ cs) kept h = elim (Bool-cases (is_digit c)) [
  | inl d ↦
      let (front, e, ds, st) = last_digits_lem cs (String.◌∷◌ c kept) (rw (d, h)) in
      (front, ground (arith, d, e), ground (arith, d, ds), st)
  | inr d ↦ (c ∷ cs, rw d, ground (arith, d, h), rw d)
]

-- The number of a partition is all of the digits at the end of its name, and nothing else: in front
-- of it the name has ended or has a character that is no digit.
extract_partition_number_suffix :
    (partition : String)
    → (front : List Char) × (unread front (extract_partition_number partition) ≡ partition)
      × (all_digits (extract_partition_number partition) ≡ true)
      × (stops front ≡ true)
unfolding extract_partition_number
extract_partition_number_suffix partition =
    let (front, e, ds, st) = last_digits_lem (reverse_onto partition []) "" refl in
    (front, ground (arith, e, unread-reverse_onto partition []), ds, st)

-- No line, trimmed, begins with the source.
abbrev pub names_none : String → List String → Bool
names_none source [] = true
names_none source (x ∷ xs) = not (starts_with (trim_space x) source) && names_none source xs

last_line_of-none :
    (source : String) (lines : List String)
    → last_line_of source lines ≡ none
    → names_none source lines ≡ true
unfolding last_line_of
last_line_of-none source [] e = refl
last_line_of-none source (x ∷ xs) e = elim (Option-cases (last_line_of source xs)) [
  | inr (q, f) ↦ absurd (ground (arith, f, e))
  | inl f ↦ elim (Bool-cases (starts_with (trim_space x) source)) [
    | inl g ↦ absurd (ground (arith, f, g, e))
    | inr g ↦ let rest = last_line_of-none source xs f in rw (g, rest)
  ]
]

chosen :
    (source x : String) (xs : List String) (p : String)
    → last_line_of source xs ≡ none
    → starts_with (trim_space x) source ≡ true
    → last_line_of source (x ∷ xs) ≡ some p
    → p ≡ trim_space x
unfolding last_line_of
chosen source x xs p f g e = ground (arith, f, g, e)

passed :
    (source x : String) (xs : List String) (p : String)
    → last_line_of source xs ≡ none
    → starts_with (trim_space x) source ≡ false
    → last_line_of source (x ∷ xs) ≡ some p
    → ⊥
unfolding last_line_of
passed source x xs p f g e = ground (arith, f, g, e)

last_line_of-some :
    (source : String) (lines : List String) (p : String)
    → last_line_of source lines ≡ some p
    → (before : List String) × (line : String) × (after : List String) × (lines
        ≡ before ++ (line ∷ after))
      × (p ≡ trim_space line)
      × (starts_with p source ≡ true)
      × (names_none source after ≡ true)
unfolding last_line_of
last_line_of-some source [] p e = absurd (cc e)
last_line_of-some source (x ∷ xs) p e = elim (Option-cases (last_line_of source xs)) [
  | inr (q, f) ↦
      let (before, line, after, lines, a, b, c) =
        last_line_of-some source xs p (ground (arith, f, e)) in
      (x ∷ before, line, after, ap (λ l. x ∷ l) lines, a, b, c)
  | inl f ↦ elim (Bool-cases (starts_with (trim_space x) source)) [
    | inl g ↦
        let same = chosen source x xs p f g e in
        (
          [],
          x,
          xs,
          refl,
          same,
          subst (λ z. starts_with z source ≡ true) (sym same) g,
          last_line_of-none source xs f,
        )
    | inr g ↦ absurd (passed source x xs p f g e)
  ]
]

found_line :
    (source output p q : String)
    → last_line_of source (split 10 output) ≡ some q
    → sfdisk_output_get_last_partition source output ≡ ok p
    → q ≡ p
unfolding sfdisk_output_get_last_partition
found_line source output p q f e = elim (Bool-cases (str_eq q "")) [
  | inl empty ↦ absurd (ground (arith, f, empty, e))
  | inr full ↦ ground (arith, f, full, e)
]

-- The partition that is reported is a line of what sfdisk has written, without the space around it;
-- it begins with the name of the disk, and no later line does.
sfdisk_output_get_last_partition_last :
    (source output p : String)
    → sfdisk_output_get_last_partition source output ≡ ok p
    → (before : List String) × (line : String) × (after : List String) × (split 10 output
        ≡ before ++ (line ∷ after))
      × (p ≡ trim_space line)
      × (starts_with p source ≡ true)
      × (names_none source after ≡ true)
unfolding sfdisk_output_get_last_partition
sfdisk_output_get_last_partition_last source output p e =
    elim (Option-cases (last_line_of source (split 10 output))) [
      | inl f ↦ absurd (cc (rw f at e))
      | inr (q, f) ↦
          last_line_of-some source (split 10 output) p
            (f ∙ ap some (found_line source output p q f e))
    ]
