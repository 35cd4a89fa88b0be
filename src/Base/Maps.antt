-- ===== src/Base/Maps.antt =====
-- Go's `map[string]string` as an association list, and the tests on texts.
use Prim.Native.String.{String}
use mathlib.Core.Bool.{Bool}
use mathlib.Core.Option.{Option, none, some}
use mathlib.Core.List.{List, [], ◌∷◌}
use text.Mathlib.Text.{◌==◌}
use upcloud_csi.Base.Booleans.{if◌then◌else◌}

abbrev pub str_eq : String → String → Bool
str_eq s t = s == t

abbrev pub StringMap : Type 0
StringMap = List (String × String)

-- `v, ok := m[k]`
abbrev pub lookup : String → StringMap → Option String
lookup k [] = none
lookup k ((j, v) ∷ m) = if j == k then some v else lookup k m

-- `m[k]`, the empty text where the key is missing.
abbrev pub index : StringMap → String → String
index m k = elim (lookup k m) [ none ↦ "" | some v ↦ v ]
