-- ===== src/Identity.antt =====
-- The identity server (internal/identity/identity.go).
use upcloud_csi.Base.{Bool, true, List, [], ◌∷◌, String}

pub record Identity : Type 0 where
  pub driver_name : String
  pub driver_version : String
  pub ready : Bool

unfoldable pub new_identity : String → String → Identity
new_identity driver_name driver_version = record {
  driver_name = driver_name;
  driver_version = driver_version;
  ready = true;
}

pub record PluginInfo : Type 0 where
  pub name : String
  pub vendor_version : String

unfoldable pub get_plugin_info : Identity → PluginInfo
get_plugin_info i = record { name = i.driver_name; vendor_version = i.driver_version }

pub data PluginCapability : Type 0 where
  controller_service volume_accessibility_constraints volume_expansion_online : PluginCapability

unfoldable pub get_plugin_capabilities : Identity → List PluginCapability
get_plugin_capabilities i =
    controller_service ∷ volume_accessibility_constraints ∷ volume_expansion_online ∷ []

unfoldable pub identity_probe : Identity → Bool
identity_probe i = i.ready
