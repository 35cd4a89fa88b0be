-- ===== src/Logger/Correlation.antt =====
-- The correlation id of a publication, from the controller to the node (internal/logger/logger.go,
-- internal/controller/controller.go).
use upcloud_csi.Base.{
  ◌≡◌, refl, ap, sym, subst, Option, false, none, some, String, StringMap, index, str_eq, str_eq,
  ◌∷◌, [],
}
use upcloud_csi.Go.{Action, Result, ok, ◌>>=◌}
use upcloud_csi.Go.Inversion.{bind-eq-ok}
use upcloud_csi.Csi.{PublishRequest}
use upcloud_csi.Controller.{Controller, volume_context_type_key, volume_type_file_storage}
use upcloud_csi.Controller.Rpc.{controller_publish_volume, ctx_correlation_id_key}
use upcloud_csi.Controller.Rpc.Publish.{publish_block_inv}
use upcloud_csi.Logger.{
  Context, Random, Output, Request, context_correlation_id, new_correlation_id, assign_id,
  contextual_publisher_correlation_id, opened, logged_call, new_middleware,
}

-- The handler of `ControllerPublishVolume`, which takes its correlation id from the context.
abbrev pub publish_handler :
    {S : Type 0} → Controller S → PublishRequest → Context → Action S StringMap
publish_handler c req ctx = controller_publish_volume c (context_correlation_id ctx) req

-- A request of another process that brings a publish context along.
abbrev pub published : StringMap → Option String → Request
published m text = record { publish_context = some m; text = text }

module _ {S A : Type 0} (out : Output S) where
  -- The handler of a call that answered has answered so itself, after the first entry was written.
  logged_call-eq-ok :
      (req : Request) (text : A → Option String) (handler : Context → Action S A) (ctx : Context)
      (s s' : S) (a : A)
      → logged_call out req text handler ctx s ≡ (ok a, s')
      → (t t' : S) × (handler ctx t ≡ (ok a, t'))
  unfolding logged_call
  logged_call-eq-ok req text handler ctx s s' a e =
      let t = opened out ctx s in
      (t, (handler ctx t).1, ap (λ z. (z, (handler ctx t).1)) (ap (λ z. z.0) e))

assigned :
    {T : Type 0} (there : Random T) (id : String) (t : T)
    → str_eq id "" ≡ false
    → assign_id there (some ((ctx_correlation_id_key, id) ∷ [])) t ≡ (ok id, t)
unfolding assign_id contextual_publisher_correlation_id
assigned there id t named = rw named refl

module _ {S T A : Type 0} (c : Controller S) (here : Random S) (there : Random T) (out : Output S)
    (out' : Output T) where
  -- A request that brings an id along is handled under it.
  given :
      (id method : String) (text : Option String) (show : A → Option String)
      (handler : Context → Action T A) (ctx : Context) (t : T)
      → str_eq id "" ≡ false
      → new_middleware there out'
          (published ((ctx_correlation_id_key, id) ∷ []) text)
          show
          method
          handler
          ctx
          t
        ≡ logged_call out'
            (published ((ctx_correlation_id_key, id) ∷ []) text)
            show
            handler
            (record { correlation_id = some id; called_method = some method })
            t
  unfolding new_middleware
  given id method text show handler ctx t named =
      ap
        (λ (z : Result String × T).
          ((λ (u : T). z) >>= λ id'.
          logged_call out' (published ((ctx_correlation_id_key, id) ∷ []) text) show handler
            (record { correlation_id = some id'; called_method = some method }))
            t)
        (assigned there id t named)

  -- A publication of a block-storage volume goes under one correlation id: the one that the middleware
  -- of the controller made for the call, if it is not empty, is the one under which the middleware of
  -- the node runs and logs the handler of a request with the publish context that the controller
  -- returned.
  pub publish_correlation :
      (req : PublishRequest) (text text' : Option String) (show : StringMap → Option String)
      (show' : A → Option String) (s s' : S) (m : StringMap) (method method' : String)
      (handler : Context → Action T A) (ctx ctx' : Context) (t : T)
      → str_eq (index req.volume_context volume_context_type_key) volume_type_file_storage ≡ false
      → ((s t : S) (id : String) → new_correlation_id here s ≡ (ok id, t) → str_eq id "" ≡ false)
      → new_middleware here out
          (record { publish_context = none; text = text })
          show
          method
          (publish_handler c req)
          ctx
          s
        ≡ (ok m, s')
      → (id : String) × (u : S) × (new_correlation_id here s ≡ (ok id, u))
        × (new_middleware there out' (published m text') show' method' handler ctx' t
            ≡ logged_call out'
                (published m text')
                show'
                handler
                (record { correlation_id = some id; called_method = some method' })
                t)
  unfolding new_middleware context_correlation_id assign_id
  publish_correlation req text text' show show' s s' m method method' handler ctx ctx' t block named
        e =
      let under : String → Context =
        λ id. record { correlation_id = some id; called_method = some method } in
      let (id, u, e1, r1) =
        bind-eq-ok (new_correlation_id here)
          (λ id.
            logged_call out (record { publish_context = none; text = text }) show
              (publish_handler c req) (under id))
          s s' m e in
      let (v, v', r2) =
        logged_call-eq-ok out (record { publish_context = none; text = text }) show
          (publish_handler c req) (under id) u s' m r1 in
      let (_, _, _, _, _, _, sent) = publish_block_inv c id req v v' m block r2 in
      (
        id,
        u,
        e1,
        subst
            (λ (p : StringMap).
              new_middleware there out' (published p text') show' method' handler ctx' t
              ≡ logged_call out' (published p text') show' handler
                  (record { correlation_id = some id; called_method = some method' }) t)
            (sym sent) (given id method' text' show' handler ctx' t (named s u id e1)),
      )
