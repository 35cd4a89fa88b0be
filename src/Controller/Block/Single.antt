-- ===== src/Controller/Block/Single.antt =====
-- A block storage volume stays attached to one server at most (publication and its reversal in
-- internal/controller/controller_block_storage.go).
use upcloud_csi.Base.{
  ◌≡◌, ◌≢◌, refl, sym, ap, subst, ◌∙◌, true, false, ◌&&◌, Bool-cases, inl, inr, List, [], ◌∷◌,
  String, str_eq, eq_iff, eq_refl, All, ltb, length,
}
use upcloud_csi.Go.{
  Result, ok, err, panic, Error, is_error, storage_not_found, server_not_found, map_error, pure,
  ◌>>=◌,
}
use upcloud_csi.Go.Inversion.{bind-eq-ok, map_error-eq-ok}
use upcloud_csi.Api.{StorageDetails, ServerDetails}
use upcloud_csi.Csi.{PublishRequest}
use upcloud_csi.Controller.{Controller}
use upcloud_csi.Controller.Block.{
  as_internal, not_found_or_internal, is_member, last_of, find_publish_target,
  attach_volume_to_server, attach_error,
}
use upcloud_csi.Controller.Block.Attachments.{View, Attachments, Single}

last_of-filled : (xs : List String) → All (λ x. x ≢ "") xs → last_of xs ≡ "" → xs ≡ []
last_of-filled [] all e = refl
last_of-filled (x ∷ []) (filled, all) e = absurd (filled e)
last_of-filled (x ∷ y ∷ ys) (filled, all) e = absurd (cc (last_of-filled (y ∷ ys) all e))

module _ {S : Type 0} (c : Controller S) (attached : View S)
    (works : Attachments c.svc attached) where
  -- After an attach of a volume that was attached nowhere, it is attached to that server only.
  attached_to :
      (v j w x : String) (s : S)
      → ((k : String) → attached s v k ≡ false)
      → w ≡ v
      → attached (c.svc.attach_block_storage v j s).1 w x ≡ true
      → x ≡ j
  attached_to v j w x s free same a = elim (Bool-cases (str_eq x j)) [
    | inl here ↦ (eq_iff x j).0 here
    | inr other ↦
        let apart : (str_eq w v && str_eq x j) ≡ false = rw (same, eq_refl v) other in
        absurd
          (cc ((works.attach_others v j w x apart).at s, a, free x, ap (λ z. attached s z x) same))
  ]

  attach-Single :
      (v j : String) (s : S)
      → ((k : String) → attached s v k ≡ false)
      → Single attached s
      → Single attached (c.svc.attach_block_storage v j s).1
  attach-Single v j s free single w x y a b = elim (Bool-cases (str_eq w v)) [
    | inl here ↦
        let same = (eq_iff w v).0 here in
        attached_to v j w x s free same a ∙ sym (attached_to v j w y s free same b)
    | inr other ↦
        single w x y (sym ((works.attach_others v j w x (rw other refl)).at s) ∙ a)
          (sym ((works.attach_others v j w y (rw other refl)).at s) ∙ b)
  ]

  map_error-state :
      (f : Error → Error) (r : Result (Unit {0})) (t : S) → (map_error f (λ u. (r, t)) t).1 ≡ t
  map_error-state f (ok u) t = refl
  map_error-state f (err e) t = refl
  map_error-state f panic t = refl

  -- Whatever comes of it, an attach to a server of a volume whose servers were looked up.
  pub attach_volume-Single :
      (req : PublishRequest) (server : ServerDetails) (volume : StorageDetails) (s : S)
      → ((j : String) → attached s req.volume_id j ≡ is_member j volume.server_uuids)
      → All (λ j. j ≢ "") volume.server_uuids
      → Single attached s
      → Single attached (attach_volume_to_server c req server volume s).1
  unfolding attach_volume_to_server
  attach_volume-Single req server volume s told named single =
      elim (Bool-cases (is_member server.uuid volume.server_uuids)) [
        | inl there ↦ rw there single
        | inr absent ↦ elim (Bool-cases (str_eq (last_of volume.server_uuids) "")) [
          | inr last ↦ rw (absent, last) single
          | inl last ↦
              elim (Bool-cases (ltb c.max_volumes_per_node (length server.storage_devices))) [
                | inl full ↦ rw (absent, last, full) single
                | inr room ↦
                    let none' =
                      last_of-filled volume.server_uuids named
                        ((eq_iff (last_of volume.server_uuids) "").0 last) in
                    let free : (k : String) → attached s req.volume_id k ≡ false =
                      λ k. told k ∙ ap (is_member k) none' in
                    rw (absent, last, room)
                      (subst (Single attached)
                        (sym (
                          map_error-state (attach_error c)
                            (c.svc.attach_block_storage req.volume_id server.uuid s).0
                            (c.svc.attach_block_storage req.volume_id server.uuid s).1))
                        (attach-Single req.volume_id server.uuid s free single))
              ]
        ]
      ]

  -- What a lookup for a publication has seen.
  pub find-names :
      (req : PublishRequest) (server : ServerDetails) (volume : StorageDetails) (s t : S)
      → find_publish_target c req s ≡ (ok (server, volume), t)
      → ((j : String) → attached t req.volume_id j ≡ is_member j volume.server_uuids)
        × All (λ j. j ≢ "") volume.server_uuids
  unfolding find_publish_target
  find-names req server volume s t e =
      let (server', a, _, e1) =
        bind-eq-ok
          (map_error (λ x. not_found_or_internal (is_error x server_not_found))
            (c.svc.get_server_by_hostname req.node_id))
          _ s t (server, volume) e in
      let (volume', b, found, e2) =
        bind-eq-ok
          (map_error (λ x. not_found_or_internal (is_error x storage_not_found))
            (c.svc.get_block_storage_by_uuid req.volume_id))
          (λ v. map_error as_internal (c.svc.require_block_storage_online v.storage) >>= λ u.
            pure (server', v))
          a t (server, volume) e1 in
      let (_, d, waited, e3) =
        bind-eq-ok (map_error as_internal (c.svc.require_block_storage_online volume'.storage))
          (λ u. pure (server', volume')) b t (server, volume) e2 in
      let (told, named) = works.names req.volume_id a b volume' (
        map_error-eq-ok (λ x. not_found_or_internal (is_error x storage_not_found))
          (c.svc.get_block_storage_by_uuid req.volume_id) a b volume' found) in
      let wait =
        map_error-eq-ok as_internal (c.svc.require_block_storage_online volume'.storage) b d tt
          waited in
      let same : volume' ≡ volume = cc e3 in
      let last : d ≡ t = ap (λ z. z.1) e3 in
      (
        λ j.
            ap (λ z. attached z req.volume_id j) (sym last)
            ∙ ap (λ (z : _ × S). attached z.1 req.volume_id j) (sym wait)
            ∙ (works.wait_reads volume'.storage req.volume_id j).at b
            ∙ told j
            ∙ ap (λ (z : StorageDetails). is_member j z.server_uuids) same,
        subst (λ (z : StorageDetails). All (λ j. j ≢ "") z.server_uuids) same named,
      )
