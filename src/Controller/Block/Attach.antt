-- ===== src/Controller/Block/Attach.antt =====
-- A block storage volume is attached to one server at most.
use upcloud_csi.Base.{
  ◌≤◌, ◌≡◌, ◌≢◌, ◌⊎◌, ◌↔◌, refl, true, List, [], ◌∷◌, String, eq_iff, length, All, arith, IsIn,
}
use upcloud_csi.Go.{ok, err, status, failed_precondition}
use upcloud_csi.Api.{StorageDetails, ServerDetails}
use upcloud_csi.Csi.{PublishRequest}
use upcloud_csi.Controller.{Controller}
use upcloud_csi.Controller.Block.{is_member, last_of, attach_volume_to_server}

pub is_member_iff : (x : String) (ys : List String) → (is_member x ys ≡ true) ↔ IsIn x ys
is_member_iff x [] = (λ e. absurd (cc e), λ e. absurd e)
is_member_iff x (y ∷ ys) = ground (arith, eq_iff y x, is_member_iff x ys)

last_of-ne-nil : (xs : List String) → xs ≢ [] → All (λ x. x ≢ "") xs → last_of xs ≢ ""
last_of-ne-nil [] some' all = absurd (some' refl)
last_of-ne-nil (x ∷ []) some' (filled, all) = filled
last_of-ne-nil (x ∷ y ∷ ys) some' (filled, all) = last_of-ne-nil (y ∷ ys) (λ e. absurd (cc e)) all

module _ {S : Type 0} (c : Controller S) (req : PublishRequest) (server : ServerDetails)
    (volume : StorageDetails) (s s' : S) where
  -- A publication that succeeds found the volume attached to the server and changed nothing, or the
  -- last of its servers has no name, the server has at most the configured number of devices, and
  -- the attach that was asked for succeeded.
  pub attach_volume_to_server_iff :
      (attach_volume_to_server c req server volume s ≡ (ok tt, s')) ↔ (
        (IsIn server.uuid volume.server_uuids × (s ≡ s'))
        ⊎ ((¬ IsIn server.uuid volume.server_uuids)
            × (last_of volume.server_uuids ≡ "")
            × (length server.storage_devices ≤ c.max_volumes_per_node)
            × (c.svc.attach_block_storage req.volume_id server.uuid s ≡ (ok tt, s'))))
  unfolding attach_volume_to_server
  attach_volume_to_server_iff = ground (
    arith,
    is_member_iff server.uuid volume.server_uuids,
    eq_iff (last_of volume.server_uuids) "",
  )

  -- A volume that is attached to servers, each with a name, is never attached to one more: the
  -- publication changes nothing, and it succeeds on one of those servers and fails with
  -- `FailedPrecondition` on any other.
  attach_volume_to_server_single :
      volume.server_uuids ≢ []
      → All (λ x. x ≢ "") volume.server_uuids
      → (IsIn server.uuid volume.server_uuids
          × (attach_volume_to_server c req server volume s ≡ (ok tt, s)))
        ⊎ ((¬ IsIn server.uuid volume.server_uuids)
            × (attach_volume_to_server c req server volume s
                ≡ (err (status failed_precondition), s)))
  unfolding attach_volume_to_server
  attach_volume_to_server_single attached named = ground (
    arith,
    is_member_iff server.uuid volume.server_uuids,
    eq_iff (last_of volume.server_uuids) "",
    last_of-ne-nil volume.server_uuids attached named,
  )
