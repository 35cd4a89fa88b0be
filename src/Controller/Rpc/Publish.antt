-- ===== src/Controller/Rpc/Publish.antt =====
-- `ControllerPublishVolume` over the implementation of the service: what its success guarantees.
use upcloud_csi.Base.{
  ◌≡◌, ◌⊎◌, ◌≤◌, inl, inr, false, String, StringMap, [], ◌∷◌, index, str_eq, arith, IsIn, length,
}
use upcloud_csi.Go.{Action, ok, pure, lift, ◌>>◌}
use upcloud_csi.Go.Inversion.{bind-eq-ok}
use upcloud_csi.Api.{StorageDetails, ServerDetails}
use upcloud_csi.Csi.{PublishRequest}
use upcloud_csi.Service.Client.{UpcloudService}
use upcloud_csi.Service.Block.{with_node_lock, attach_block_storage, attach_locked}
use upcloud_csi.Service.Block.Attachments.{HasAttached, attach_locked-HasAttached}
use upcloud_csi.Service.Upcloud.{upcloud_service}
use upcloud_csi.Controller.{Controller, volume_context_type_key, volume_type_file_storage}
use upcloud_csi.Controller.Requests.{validate_controller_publish_volume_request}
use upcloud_csi.Controller.Block.{find_publish_target, attach_volume_to_server, last_of}
use upcloud_csi.Controller.Block.Attach.{attach_volume_to_server_iff}
use upcloud_csi.Controller.Rpc.{controller_publish_volume, ctx_correlation_id_key}

module _ {S : Type 0} (u : UpcloudService S) where
  with_node_lock-ok :
      (j : String) (m : Action S (Unit {0})) (s s' : S)
      → with_node_lock u j m s ≡ (ok tt, s')
      → (t : S) × (m (u.lock j s) ≡ (ok tt, t)) × (s' ≡ u.unlock j t)
  unfolding with_node_lock
  with_node_lock-ok j m s s' e = ((m (u.lock j s)).1, ground arith, ground arith)

  attach_block_storage-HasAttached :
      (v j : String) (s s' : S)
      → attach_block_storage u v j s ≡ (ok tt, s')
      → (t : S) × HasAttached u v j t × (s' ≡ u.unlock j t)
  unfolding attach_block_storage
  attach_block_storage-HasAttached v j s s' e =
      let (t, r, same) = with_node_lock-ok j (attach_locked u v j) s s' e in
      (t, attach_locked-HasAttached u v j (u.lock j s) t r, same)

module _ {S : Type 0} (c : Controller S) where
  pub publish_block_inv :
      (id : String) (req : PublishRequest) (s s' : S) (m : StringMap)
      → str_eq (index req.volume_context volume_context_type_key) volume_type_file_storage ≡ false
      → controller_publish_volume c id req s ≡ (ok m, s')
      → (validate_controller_publish_volume_request req ≡ ok tt)
        × (server : ServerDetails) × (volume : StorageDetails) × (t : S) × (find_publish_target c
              req s
            ≡ (ok (server, volume), t))
        × (attach_volume_to_server c req server volume t ≡ (ok tt, s'))
        × (m ≡ (ctx_correlation_id_key, id) ∷ [])
  unfolding controller_publish_volume
  publish_block_inv id req s s' m kind e =
      let (_, t₀, passed, e₁) =
        bind-eq-ok (lift (validate_controller_publish_volume_request req)) _ s s' m e in
      let (same, t₀s) : (validate_controller_publish_volume_request req ≡ ok tt) × (s ≡ t₀) =
        (ground arith, ground arith) in
      let e₂ = rw (kind, ← t₀s) at e₁ in
      let ((server, volume), t, found, e₃) =
        bind-eq-ok (find_publish_target c req)
          (λ ((server, volume) : ServerDetails × StorageDetails).
            attach_volume_to_server c req server volume >> pure ((ctx_correlation_id_key, id) ∷ []))
          s s' m e₂ in
      let (_, t', attached, e₄) =
        bind-eq-ok (attach_volume_to_server c req server volume) _ t s' m e₃ in
      (same, server, volume, t, found, ground (arith, attached), ground arith)

  -- Over `UpCloudService`, a publication of a volume that is not NFS and that succeeds has passed
  -- the check of the request, has found the server and the volume, and either the volume was
  -- attached to that server at the lookup and nothing changed after it, or the last of its servers
  -- has no name, the server's devices are within the limit, and the API attached the volume and
  -- lists it among the server's devices.
  pub controller_publish_volume-HasAttached :
      (u : UpcloudService S) (id : String) (req : PublishRequest) (s s' : S) (m : StringMap)
      → c.svc ≡ upcloud_service u
      → str_eq (index req.volume_context volume_context_type_key) volume_type_file_storage ≡ false
      → controller_publish_volume c id req s ≡ (ok m, s')
      → (validate_controller_publish_volume_request req ≡ ok tt)
        × (server : ServerDetails) × (volume : StorageDetails) × (t : S) × (find_publish_target c
              req s
            ≡ (ok (server, volume), t))
        × ((IsIn server.uuid volume.server_uuids × (t ≡ s'))
            ⊎ ((last_of volume.server_uuids ≡ "")
                × (length server.storage_devices ≤ c.max_volumes_per_node)
                × (t' : S) × HasAttached u req.volume_id server.uuid t'
                × (s' ≡ u.unlock server.uuid t')))
  controller_publish_volume-HasAttached u id req s s' m svc kind e =
      let (valid, server, volume, t, found, attached, _) = publish_block_inv id req s s' m kind e in
      (
        valid,
        server,
        volume,
        t,
        found,
        elim ((attach_volume_to_server_iff c req server volume t s').0 attached) [
          | inl (there, same) ↦ inl (there, same)
          | inr (absent, free, room, call) ↦
              let (t', done, last) =
                attach_block_storage-HasAttached u req.volume_id server.uuid t s'
                  (rw svc at call) in
              inr (free, room, t', done, last)
        ],
      )
