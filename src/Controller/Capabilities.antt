-- ===== src/Controller/Capabilities.antt =====
-- The capability checks of internal/controller/controller_utils.go. Each collects violations in a
-- set of texts and returns its sorted list.
pub mod Laws
use upcloud_csi.Base.{
  Bool, true, false, not, Option, none, some, List, [], ◌∷◌, ◌++◌, String, ◌<>◌, if◌then◌else◌,
}
use upcloud_csi.Csi.{
  AccessMode, is_single_node_writer, is_multi_node_multi_writer, same_mode, unset, block, mount,
  VolumeCapability, mode_of,
}
use upcloud_csi.Controller.{Library}

-- The violations that a loop inserts, in order.
pub each : (VolumeCapability → List String) → List VolumeCapability → List String
each check [] = []
each check (cap ∷ caps) = check cap ++ each check caps

module _ (l : Library) where
  -- The body of the loop of `validateCapabilities`.
  pub block_violations : VolumeCapability → List String
  block_violations cap =
      (if is_single_node_writer (mode_of cap)
        then []
        else ("unsupported access mode " <> l.mode_text (mode_of cap)) ∷ [])
      ++ elim cap.access_type [ unset ↦ "unsupported access type" ∷ [] | block ↦ [] | mount m ↦ [] ]

  unfoldable pub validate_capabilities : List VolumeCapability → List String
  unfolding each block_violations
  validate_capabilities caps = l.set_list (each block_violations caps)

  -- The body of the loop of `validateFileStorageCapabilities`.
  pub file_violations : VolumeCapability → List String
  file_violations cap =
      (if is_multi_node_multi_writer (mode_of cap)
        then []
        else ("unsupported access mode " <> l.mode_text (mode_of cap)) ∷ [])
      ++ elim cap.access_type [
        | unset ↦ "only mount access type is supported for file storage" ∷ []
        | block ↦ "only mount access type is supported for file storage" ∷ []
        | mount m ↦ []
      ]

  unfoldable pub validate_file_storage_capabilities : List VolumeCapability → List String
  unfolding each file_violations
  validate_file_storage_capabilities caps = l.set_list (each file_violations caps)

  -- The body of the loop of `validateVolumeCapabilitiesAgainstVolume`.
  pub violations_against : AccessMode → VolumeCapability → List String
  violations_against volume_mode cap =
      elim cap.access_mode [
        | none ↦ []
        | some m ↦
            if same_mode m volume_mode
            then []
            else ("unsupported access mode "
                <> l.mode_text m
                <> " (volume supports "
                <> l.mode_text volume_mode
                <> ")")
              ∷ []
      ]
      ++ elim cap.access_type [
        | unset ↦ "unsupported access type" ∷ []
        | block ↦
            if is_multi_node_multi_writer volume_mode
            then "block access type not supported for file storage" ∷ []
            else []
        | mount m ↦ []
      ]

  unfoldable pub validate_volume_capabilities_against_volume :
      List VolumeCapability → AccessMode → List String
  unfolding each violations_against
  validate_volume_capabilities_against_volume caps volume_mode =
      l.set_list (each (violations_against volume_mode) caps)
