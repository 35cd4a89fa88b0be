-- ===== src/Controller/Rpc/Single.antt =====
-- Histories of publications and unpublications (internal/controller/controller.go).
use upcloud_csi.Base.{List, [], ◌∷◌, String, StringMap, str_eq, index}
use upcloud_csi.Go.{Action, lift, pure, ◌>>=◌, ◌>>◌}
use upcloud_csi.Go.Keeps.{Keeps, bind-at, bind-Keeps, pure-Keeps, lift-Keeps, if-Keeps, keeps_rules}
use upcloud_csi.Api.{StorageDetails, ServerDetails}
use upcloud_csi.Csi.{PublishRequest, UnpublishRequest}
use upcloud_csi.Controller.{Controller, volume_context_type_key, volume_type_file_storage}
use upcloud_csi.Controller.Requests.{validate_controller_publish_volume_request}
use upcloud_csi.Controller.Block.{find_publish_target, attach_volume_to_server}
use upcloud_csi.Controller.Block.Attachments.{
  View, Attachments, Single, from_node-Keeps, from_all-Keeps, find-Keeps,
}
use upcloud_csi.Controller.Block.Single.{find-names, attach_volume-Single}
use upcloud_csi.Controller.Rpc.{
  controller_publish_volume, controller_unpublish_volume, ctx_correlation_id_key,
}

pub data Call : Type 0 where
  publishes : String → PublishRequest → Call
  unpublishes : UnpublishRequest → Call

-- The state after a history, in which calls may also have failed or panicked.
abbrev pub run : {S : Type 0} → Controller S → List Call → S → S
run c [] s = s
run c (publishes id req ∷ calls) s = run c calls (controller_publish_volume c id req s).1
run c (unpublishes req ∷ calls) s = run c calls (controller_unpublish_volume c req s).1

module _ {S : Type 0} (c : Controller S) (attached : View S)
    (works : Attachments c.svc attached) where
  abbrev answer : String → StringMap
  answer id = (ctx_correlation_id_key, id) ∷ []

  publish_found : PublishRequest → String → ServerDetails × StorageDetails → Action S StringMap
  publish_found req id (server, volume) =
      attach_volume_to_server c req server volume >> pure (answer id)

  found-Single :
      (req : PublishRequest) (id : String) (s : S)
      → Single attached s
      → Single attached ((find_publish_target c req >>= publish_found req id) s).1
  unfolding publish_found
  found-Single req id s single =
      bind-at (Single attached) (find_publish_target c req) (publish_found req id) s
        ((find-Keeps c attached works req).at s single)
        λ (server, volume) e.
          let t = (find_publish_target c req s).1 in
          let (told, named) = find-names c attached works req server volume s t e in
          let kept =
            attach_volume-Single c attached works req server volume t told named
              ((find-Keeps c attached works req).at s single) in
          bind-at (Single attached) (attach_volume_to_server c req server volume)
            (λ _. pure (answer id)) t kept (λ _ _. kept)

  publish-Keeps :
      (id : String) (req : PublishRequest)
      → Keeps (Single attached) (controller_publish_volume c id req)
  unfolding controller_publish_volume publish_found
  publish-Keeps id req =
      bind-Keeps (lift (validate_controller_publish_volume_request req)) _ (lift-Keeps _) (λ _.
        if-Keeps
          (str_eq (index req.volume_context volume_context_type_key) volume_type_file_storage)
          (pure []) (find_publish_target c req >>= publish_found req id) (pure-Keeps [])
          (record { at = found-Single req id }))

  unpublish-Keeps :
      (req : UnpublishRequest) → Keeps (Single attached) (controller_unpublish_volume c req)
  unfolding controller_unpublish_volume
  unpublish-Keeps req = search (keeps_rules, from_node-Keeps, from_all-Keeps) depth 12

  -- Over a service whose lookups tell what is attached and change nothing, whose attach attaches its
  -- volume to its server only, and whose detach attaches nothing, no history of publications and
  -- unpublications, of any volumes and nodes and whether its calls succeed, fail or panic, attaches a
  -- volume to two servers, where no volume was at first.
  pub run-Single : (calls : List Call) (s : S) → Single attached s → Single attached (run c calls s)
  run-Single [] s single = single
  run-Single (publishes id req ∷ calls) s single =
      run-Single calls (controller_publish_volume c id req s).1 ((publish-Keeps id req).at s single)
  run-Single (unpublishes req ∷ calls) s single =
      run-Single calls (controller_unpublish_volume c req s).1 ((unpublish-Keeps req).at s single)
