-- ===== src/Controller/Capabilities/Laws.antt =====
-- Which capabilities the checks let pass.
use upcloud_csi.Base.{true, ◌≡◌, ◌≢◌, refl, ◌↔◌, List, [], ◌∷◌, ◌++◌, String, All, arith}
use upcloud_csi.Csi.{
  VolumeCapability, unset, mode_of, single_node_writer, multi_node_multi_writer, is_mount,
}
use upcloud_csi.Controller.{Library}
use upcloud_csi.Controller.Capabilities.{
  each, block_violations, file_violations, violations_against, validate_capabilities,
  validate_file_storage_capabilities, validate_volume_capabilities_against_volume,
}

-- What the driver relies on of `sets.String`: its list is empty exactly if nothing was inserted.
pub record IsSetList (l : Library) : Type 0 where
  pub set_list-nil : l.set_list [] ≡ []
  pub set_list-cons : (x : String) (xs : List String) → l.set_list (x ∷ xs) ≢ []

-- A block storage volume can be used like this: written by one node, as a device or a filesystem.
abbrev pub IsBlockUse : VolumeCapability → Type 0
IsBlockUse cap = (mode_of cap ≡ single_node_writer) × (cap.access_type ≢ unset)

-- An NFS volume can be used like this: written by many nodes, mounted.
abbrev pub IsFileUse : VolumeCapability → Type 0
IsFileUse cap = (mode_of cap ≡ multi_node_multi_writer) × (is_mount cap ≡ true)

append-eq-nil_iff : (xs ys : List String) → (xs ++ ys ≡ []) ↔ ((xs ≡ []) × (ys ≡ []))
append-eq-nil_iff [] ys = (λ e. (refl, e), λ (_, e). e)
append-eq-nil_iff (x ∷ xs) ys = (λ e. absurd (cc e), λ (e, _). absurd (cc e))

module _ (check : VolumeCapability → List String) (P : VolumeCapability → Type 0) where
  each-eq-nil_iff :
      ((cap : VolumeCapability) → (check cap ≡ []) ↔ P cap)
      → (caps : List VolumeCapability) → (each check caps ≡ []) ↔ All P caps
  unfolding each
  each-eq-nil_iff h [] = (λ _. tt, λ _. refl)
  each-eq-nil_iff h (cap ∷ caps) =
      let (split, join) = append-eq-nil_iff (check cap) (each check caps) in
      let (to, from) = each-eq-nil_iff h caps in
      (λ e. ((h cap).0 (split e).0, to (split e).1), λ (p, ps). join ((h cap).1 p, from ps))

module _ (l : Library) where
  block_violations_iff : (cap : VolumeCapability) → (block_violations l cap ≡ []) ↔ IsBlockUse cap
  unfolding block_violations
  block_violations_iff cap = ground arith

  file_violations_iff : (cap : VolumeCapability) → (file_violations l cap ≡ []) ↔ IsFileUse cap
  unfolding file_violations
  file_violations_iff cap = ground arith

  violations_against_block :
      (cap : VolumeCapability) → IsBlockUse cap → violations_against l single_node_writer cap ≡ []
  unfolding violations_against
  violations_against_block cap (mode, access) = ground arith

  violations_against_file :
      (cap : VolumeCapability)
      → IsFileUse cap
      → violations_against l multi_node_multi_writer cap ≡ []
  unfolding violations_against
  violations_against_file cap (mode, mounted) = ground arith

each_nil :
    (check : VolumeCapability → List String) (P : VolumeCapability → Type 0)
    → ((cap : VolumeCapability) → P cap → check cap ≡ [])
    → (caps : List VolumeCapability) → All P caps
    → each check caps ≡ []
unfolding each
each_nil check P h [] _ = refl
each_nil check P h (cap ∷ caps) (p, ps) =
    (append-eq-nil_iff (check cap) (each check caps)).1 (h cap p, each_nil check P h caps ps)

module _ (l : Library) (s : IsSetList l) where
  set_list-eq-nil_iff : (xs : List String) → (l.set_list xs ≡ []) ↔ (xs ≡ [])
  set_list-eq-nil_iff [] = (λ _. refl, λ _. s.set_list-nil)
  set_list-eq-nil_iff (x ∷ xs) = (λ e. absurd (s.set_list-cons x xs e), λ e. absurd (cc e))

  -- A block storage volume is created for a list of capabilities exactly if each asks for one
  -- writing node and for a device or a filesystem.
  pub validate_capabilities_iff :
      (caps : List VolumeCapability) → (validate_capabilities l caps ≡ []) ↔ All IsBlockUse caps
  unfolding validate_capabilities
  validate_capabilities_iff caps =
      let (to, from) =
        each-eq-nil_iff (block_violations l) IsBlockUse (block_violations_iff l) caps in
      let (out, back) = set_list-eq-nil_iff (each (block_violations l) caps) in
      (λ e. to (out e), λ a. back (from a))

  -- A file storage volume is created for a list of capabilities exactly if each asks for many
  -- writing nodes and a mounted filesystem.
  pub validate_file_storage_capabilities_iff :
      (caps : List VolumeCapability)
      → (validate_file_storage_capabilities l caps ≡ []) ↔ All IsFileUse caps
  unfolding validate_file_storage_capabilities
  validate_file_storage_capabilities_iff caps =
      let (to, from) = each-eq-nil_iff (file_violations l) IsFileUse (file_violations_iff l) caps in
      let (out, back) = set_list-eq-nil_iff (each (file_violations l) caps) in
      (λ e. to (out e), λ a. back (from a))

  pub created_block :
      (caps : List VolumeCapability)
      → validate_capabilities l caps ≡ []
      → validate_volume_capabilities_against_volume l caps single_node_writer ≡ []
  unfolding validate_volume_capabilities_against_volume
  created_block caps e = (set_list-eq-nil_iff _).1 (
      each_nil _ IsBlockUse (violations_against_block l) caps
        ((validate_capabilities_iff caps).0 e))

  pub created_file :
      (caps : List VolumeCapability)
      → validate_file_storage_capabilities l caps ≡ []
      → validate_volume_capabilities_against_volume l caps multi_node_multi_writer ≡ []
  unfolding validate_volume_capabilities_against_volume
  created_file caps e = (set_list-eq-nil_iff _).1 (
      each_nil _ IsFileUse (violations_against_file l) caps
        ((validate_file_storage_capabilities_iff caps).0 e))
