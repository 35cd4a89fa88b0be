-- ===== src/Go/Path.antt =====
-- The functions of `path/filepath` that internal/filesystem uses, for slash-separated paths.
use upcloud_csi.Base.{Bool, List, [], ◌∷◌, String, ◌<>◌, starts_with, str_eq, if◌then◌else◌}
use upcloud_csi.Go.Text.{split, join}
use mathlib.Core.List.{reverse}

-- `filepath.IsAbs`
abbrev pub is_abs : String → Bool
is_abs path = starts_with path "/"

-- `..` after the elements kept so far, last first: it takes one back, stays in front of a relative
-- path, and is dropped at the root.
abbrev parent_step : Bool → List String → List String
parent_step rooted [] = if rooted then [] else ".." ∷ []
parent_step rooted (x ∷ xs) = if str_eq x ".." then ".." ∷ x ∷ xs else xs

abbrev clean_step : Bool → List String → String → List String
clean_step rooted kept x =
    if str_eq x ""
    then kept
    else if str_eq x "."
    then kept
    else if str_eq x ".."
    then parent_step rooted kept
    else x ∷ kept

abbrev clean_parts : Bool → List String → List String → List String
clean_parts rooted kept [] = reverse kept
clean_parts rooted kept (x ∷ xs) = clean_parts rooted (clean_step rooted kept x) xs

-- `filepath.Clean`
unfoldable pub clean : String → String
clean path =
    let rooted = is_abs path in
    let rest = join "/" (clean_parts rooted [] (split 47 path)) in
    if rooted then "/" <> rest else if str_eq rest "" then "." else rest

-- All elements but the last.
abbrev all_but_last : List String → List String
all_but_last [] = []
all_but_last (x ∷ []) = []
all_but_last (x ∷ y ∷ ys) = x ∷ all_but_last (y ∷ ys)

abbrev with_slash : List String → String
with_slash [] = ""
with_slash (x ∷ xs) = join "/" (x ∷ xs) <> "/"

-- `filepath.Dir`
unfoldable pub dir : String → String
unfolding clean
dir path = clean (with_slash (all_but_last (split 47 path)))

-- `filepath.Join(a, b)`
unfoldable pub join_path : String → String → String
unfolding clean
join_path a b =
    if str_eq a ""
    then (if str_eq b "" then "" else clean b)
    else if str_eq b ""
    then clean a
    else clean (a <> ("/" <> b))
