-- ===== src/Controller/Requests.antt =====
-- The checks and readings of requests that touch no state: internal/controller/controller.go and
-- controller_utils.go.
pub mod Laws
use Prim.Native.Char.{code}
use mathlib.Core.Option
use upcloud_csi.Base.{
  ℤ, ℕ, Bool, true, false, not, ◌==◌, Option, none, some, List, [], ◌∷◌, String, StringMap, lookup,
  str_eq, if◌then◌else◌,
}
use upcloud_csi.Go.{Result, ok, err, plain, status, invalid_argument, resource_exhausted}
use upcloud_csi.Api.{Label}
use upcloud_csi.Csi.{CreateVolumeRequest, PublishRequest, VolumeCapability, ContentSource}
use upcloud_csi.Service.{Service}
use upcloud_csi.Controller.{Library, Controller, topology_region_key}
use upcloud_csi.Controller.Capabilities.{validate_capabilities, validate_file_storage_capabilities}

-- `strings.SplitN(l, "=", 2)` where it gives two parts.
pub split_label : String → Option (String × String)
split_label String.[] = none
split_label (String.◌∷◌ c s) =
    let rest = Option.map (λ ((k, v) : String × String). (String.◌∷◌ c k, v)) (split_label s) in
    if code c == b'=' then some ("", s) else rest

unfoldable pub upcloud_labels : List String → List Label
unfolding split_label
upcloud_labels [] = []
upcloud_labels (l ∷ ls) = elim (split_label l) [
  | none ↦ upcloud_labels ls
  | some (k, v) ↦ record { key = k; value = v } ∷ upcloud_labels ls
]

unfoldable pub new_controller :
    {S : Type 0} → Service S → String → String → ℕ → List String → Library → Result (Controller S)
unfolding upcloud_labels
new_controller svc zone node_host max_volumes_per_node labels library =
    if str_eq zone ""
    then err (plain "controller zone is required field")
    else ok (record {
      zone = zone;
      node_host = node_host;
      max_volumes_per_node = max_volumes_per_node;
      svc = svc;
      storage_labels = upcloud_labels labels;
      library = library;
    })

-- The loop over the requisite topologies: a region, where one is named, must be the zone.
pub in_zone : String → List StringMap → Result (Unit {0})
in_zone zone [] = ok tt
in_zone zone (t ∷ ts) = elim (lookup topology_region_key t) [
  | none ↦ in_zone zone ts
  | some region ↦
      let rest = in_zone zone ts in
      if str_eq region zone then rest else err (status resource_exhausted)
]

pub check_topology : String → Option (List StringMap) → Result (Unit {0})
check_topology zone none = ok tt
check_topology zone (some ts) = in_zone zone ts

unfoldable pub create_volume_request_tier : Library → CreateVolumeRequest → Result String
create_volume_request_tier l r = elim (lookup "tier" r.parameters) [
  | none ↦ ok ""
  | some p ↦
      if str_eq p "maxiops"
      then ok l.tier_max_iops
      else if str_eq p "hdd"
      then ok l.tier_hdd
      else if str_eq p "standard"
      then ok l.tier_standard
      else err (status invalid_argument)
]

unfoldable pub create_volume_request_encryption_at_rest : CreateVolumeRequest → Bool
create_volume_request_encryption_at_rest r = elim (lookup "encryption" r.parameters) [
  | none ↦ false
  | some e ↦ str_eq e "data-at-rest"
]

-- `len(violations) > 0` and the check of the topology behind it.
pub no_violations : List String → Result (Unit {0}) → Result (Unit {0})
no_violations [] rest = rest
no_violations (v ∷ vs) rest = err (status invalid_argument)

pub some_capabilities : List VolumeCapability → Result (Unit {0}) → Result (Unit {0})
some_capabilities [] rest = err (status invalid_argument)
some_capabilities (c ∷ cs) rest = rest

unfoldable pub validate_create_volume_request :
    Library → CreateVolumeRequest → String → Result (Unit {0})
unfolding in_zone check_topology no_violations some_capabilities
validate_create_volume_request l r zone =
    if str_eq r.name ""
    then err (status invalid_argument)
    else some_capabilities r.volume_capabilities (
        no_violations (validate_capabilities l r.volume_capabilities)
          (check_topology zone r.requisite))

-- `r.GetVolumeContentSource() != nil`
pub no_content_source : Option ContentSource → Result (Unit {0}) → Result (Unit {0})
no_content_source none rest = rest
no_content_source (some s) rest = err (status invalid_argument)

unfoldable pub validate_file_storage_create_volume_request :
    Library → CreateVolumeRequest → String → Result (Unit {0})
unfolding in_zone check_topology no_violations some_capabilities no_content_source
validate_file_storage_create_volume_request l r zone =
    if str_eq r.name ""
    then err (status invalid_argument)
    else some_capabilities r.volume_capabilities (
        no_violations (validate_file_storage_capabilities l r.volume_capabilities)
          (no_content_source r.volume_content_source (check_topology zone r.requisite)))

unfoldable pub validate_controller_publish_volume_request : PublishRequest → Result (Unit {0})
validate_controller_publish_volume_request r =
    if str_eq r.volume_id ""
    then err (status invalid_argument)
    else if str_eq r.node_id ""
    then err (status invalid_argument)
    else elim r.volume_capability [
      | none ↦ err (status invalid_argument)
      | some c ↦ if r.readonly then err (status invalid_argument) else ok tt
    ]
