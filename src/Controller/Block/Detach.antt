-- ===== src/Controller/Block/Detach.antt =====
-- Unpublishing a volume from every server, against a view of what is attached where.
use upcloud_csi.Base.{
  ◌≡◌, inl, inr, ap, subst, Bool, true, false, List, [], ◌∷◌, String, All, IsIn, str_eq, eq_iff,
  Bool-cases, arith,
}
use upcloud_csi.Go.{
  ok, err, Error, is_error, server_storage_not_found, storage_not_found, allow, for_each,
}
use upcloud_csi.Go.Inversion.{bind-eq-ok, allow-eq-ok}
use upcloud_csi.Api.{StorageDetails}
use upcloud_csi.Csi.{UnpublishRequest}
use upcloud_csi.Service.{Service}
use upcloud_csi.Controller.{Controller}
use upcloud_csi.Controller.Block.{detach_quietly, unpublish_volume_from_all_nodes}
use upcloud_csi.Controller.Rpc.{controller_unpublish_volume}
use upcloud_csi.Service.File.{is_valid_file_storage_uuid}

-- `attached v j s` says whether the volume is attached to the server. A detach that succeeds, or
-- that does not find the volume at the server, leaves it detached there, and no detach attaches. A
-- lookup names every server that the volume is attached to, and fails with the sentinel only for a
-- volume that is attached nowhere.
pub record IsDetach {S : Type 0} (svc : Service S) (attached : String → String → S → Bool)
    : Type 0 where
  pub detached-ok :
      (v j : String) (s s' : S)
      → svc.detach_block_storage v j s ≡ (ok tt, s')
      → attached v j s' ≡ false
  pub detached-absent :
      (v j : String) (e : Error) (s s' : S)
      → svc.detach_block_storage v j s ≡ (err e, s')
      → is_error e server_storage_not_found ≡ true
      → attached v j s' ≡ false
  pub detach-keeps :
      (v j k : String) (s : S)
      → attached v k s ≡ false
      → attached v k (svc.detach_block_storage v j s).1 ≡ false
  pub names :
      (v k : String) (s t : S) (d : StorageDetails)
      → svc.get_block_storage_by_uuid v s ≡ (ok d, t)
      → attached v k t ≡ true
      → IsIn k d.server_uuids
  pub unknown :
      (v k : String) (e : Error) (s t : S)
      → svc.get_block_storage_by_uuid v s ≡ (err e, t)
      → is_error e storage_not_found ≡ true
      → attached v k t ≡ false

All-at : (P : String → Type 0) (k : String) (js : List String) → All P js → IsIn k js → P k
All-at P k [] all inside = absurd inside
All-at P k (j ∷ js) (p, ps) (inl same) = subst P same p
All-at P k (j ∷ js) (p, ps) (inr inside) = All-at P k js ps inside

module _ {S : Type 0} (c : Controller S) (attached : String → String → S → Bool)
    (works : IsDetach c.svc attached) where
  keeps :
      (v j : String) (s s' : S)
      → (c.svc.detach_block_storage v j s).1 ≡ s'
      → (k : String) → attached v k s ≡ false
      → attached v k s' ≡ false
  keeps v j s s' e k free = subst (λ t. attached v k t ≡ false) e (works.detach-keeps v j k s free)

  detach_quietly_lem :
      (v j : String) (s s' : S)
      → detach_quietly c v j s ≡ (ok tt, s')
      → (attached v j s' ≡ false)
        × ((k : String) → attached v k s ≡ false → attached v k s' ≡ false)
  unfolding detach_quietly
  detach_quietly_lem v j s s' e =
      let call = c.svc.detach_block_storage v j in
      let (o, t, done, e₁) = bind-eq-ok (allow server_storage_not_found call) _ s s' tt e in
      let same : t ≡ s' = ground arith in
      elim (allow-eq-ok server_storage_not_found call s t o done) [
        | inl (a, _, r) ↦
            let r' : call s ≡ (ok tt, s') = rw same at r in
            (works.detached-ok v j s s' r', keeps v j s s' (ap (λ p. p.1) r'))
        | inr (x, _, absent, r) ↦
            let r' : call s ≡ (err x, s') = rw same at r in
            (works.detached-absent v j x s s' r' absent, keeps v j s s' (ap (λ p. p.1) r'))
      ]

  for_each-detached :
      (v : String) (js : List String) (s s' : S)
      → for_each (detach_quietly c v) js s ≡ (ok tt, s')
      → All (λ j. attached v j s' ≡ false) js
        × ((k : String) → attached v k s ≡ false → attached v k s' ≡ false)
  for_each-detached v [] s s' e =
      let same : s ≡ s' = ground arith in
      (tt, λ k free. subst (λ t. attached v k t ≡ false) same free)
  for_each-detached v (j ∷ js) s s' e =
      let (_, t, first, e₁) =
        bind-eq-ok (detach_quietly c v j) (λ _. for_each (detach_quietly c v) js) s s' tt e in
      let (gone, kept) = detach_quietly_lem v j s t first in
      let (rest, kept') = for_each-detached v js t s' e₁ in
      ((kept' j gone, rest), λ k free. kept' k (kept k free))

  detached_everywhere :
      (req : UnpublishRequest) (s s' : S)
      → unpublish_volume_from_all_nodes c req s ≡ (ok tt, s')
      → (k : String) → attached req.volume_id k s' ≡ false
  unfolding unpublish_volume_from_all_nodes
  detached_everywhere req s s' e k =
      let v = req.volume_id in
      let call = c.svc.get_block_storage_by_uuid v in
      let (o, t, found, e₁) = bind-eq-ok (allow storage_not_found call) _ s s' tt e in
      elim (allow-eq-ok storage_not_found call s t o found) [
        | inl (volume, is, r) ↦
            let e₂ : for_each (detach_quietly c v) volume.server_uuids t ≡ (ok tt, s') =
              rw is at e₁ in
            let (gone, kept) = for_each-detached v volume.server_uuids t s' e₂ in
            elim (Bool-cases (attached v k t)) [
              | inr free ↦ kept k free
              | inl there ↦
                  All-at (λ j. attached v j s' ≡ false) k volume.server_uuids gone
                    (works.names v k s t volume r there)
            ]
        | inr (x, is, absent, r) ↦
            let e₂ = rw is at e₁ in
            let same : t ≡ s' = ground arith in works.unknown v k x s s' (rw same at r) absent
      ]

  -- Over a service whose lookup names every server that the volume is attached to, and does not find
  -- only what is attached nowhere; and whose detach leaves the volume detached from the server and
  -- attaches nothing: ControllerUnpublishVolume without a node, where it succeeds for a volume that is
  -- not one of file storage, leaves the volume detached from every server.
  pub controller_unpublish_volume_detaches :
      (req : UnpublishRequest) (s s' : S)
      → req.node_id ≡ ""
      → is_valid_file_storage_uuid c.library.parses_uuid req.volume_id ≡ false
      → controller_unpublish_volume c req s ≡ (ok tt, s')
      → (k : String) → attached req.volume_id k s' ≡ false
  unfolding controller_unpublish_volume
  controller_unpublish_volume_detaches req s s' everywhere block_storage e =
      let no_node : str_eq req.node_id "" ≡ true = (eq_iff req.node_id "").1 everywhere in
      elim (Bool-cases (str_eq req.volume_id "")) [
        | inl unnamed ↦ absurd (cc (rw unnamed at e))
        | inr named ↦ detached_everywhere req s s' (rw (named, block_storage, no_node) at e)
      ]
