-- ===== src/Tests/Correlated.antt =====
-- A publication and what the node makes of it.
use upcloud_csi.Base.{
  ℕ, ◌+◌, length, ◌≡◌, refl, subst, arith, false, Option, none, some, [], ◌∷◌, String, str_eq,
}
use upcloud_csi.Go.{Action, ok, pure}
use upcloud_csi.Service.Block.{
  attach_block_storage, get_block_storage_by_uuid, require_block_storage_online, with_node_lock,
  attach_locked, wait_for_server_online,
}
use upcloud_csi.Service.Upcloud.{upcloud_service, get_server_by_hostname}
use upcloud_csi.Controller.Block.{find_publish_target, attach_volume_to_server}
use upcloud_csi.Controller.Requests.{validate_controller_publish_volume_request}
use upcloud_csi.Controller.Rpc.{controller_publish_volume}
use upcloud_csi.Logger.{
  Context, Random, Output, Request, new_correlation_id, context_correlation_id, assign_id,
  logged_call, new_middleware,
}
use upcloud_csi.Logger.Discreet.{new_middleware_discreet}
use upcloud_csi.Logger.Correlation.{publish_correlation, published}
use upcloud_csi.Tests.Fixtures.{unavailable, controller}
use upcloud_csi.Tests.Servers.{World, cloud, detached_world, publish_request}

-- The same bytes at every call.
abbrev bytes : Random World
bytes = record { read_bytes = λ n. pure (1 ∷ 171 ∷ []); new_uuid = unavailable }

abbrev no_bytes : Random (Unit {0})
no_bytes = record { read_bytes = λ n. unavailable; new_uuid = unavailable }

-- A handler that answers with the id that it runs under.
abbrev tell_id : Context → Action (Unit {0}) String
tell_id ctx = pure (context_correlation_id ctx)

abbrev no_context : Context
no_context = record { correlation_id = none; called_method = none }

bytes_named :
    (s t : World) (id : String) → new_correlation_id bytes s ≡ (ok id, t) → str_eq id "" ≡ false
unfolding new_correlation_id
bytes_named s t id e =
    let same : "01ab" ≡ id = ground (arith, e) in subst (λ z. str_eq z "" ≡ false) same refl

-- A log that is not kept, and a clock that stands still.
abbrev no_log : {S : Type 0} → Output S
no_log = record { level = 4; fields = []; write = λ entry s. s; now = λ s. 0 }

abbrev sent : Request
sent = published (("ctx_correlation_id", "01ab") ∷ []) none

abbrev untold : {A : Type 0} → A → Option String
untold a = none

publish_correlation_example :
    (id : String) × (u : World) × (new_correlation_id bytes detached_world ≡ (ok id, u))
    × (new_middleware no_bytes no_log sent untold "NodePublishVolume" tell_id no_context tt
        ≡ logged_call no_log sent untold tell_id
            (record { correlation_id = some id; called_method = some "NodePublishVolume" })
            tt)
unfolding new_middleware assign_id logged_call context_correlation_id new_correlation_id
    controller_publish_volume find_publish_target attach_volume_to_server get_block_storage_by_uuid
    require_block_storage_online get_server_by_hostname attach_block_storage
    validate_controller_publish_volume_request with_node_lock attach_locked wait_for_server_online
publish_correlation_example =
    publish_correlation (controller (upcloud_service cloud)) bytes no_bytes no_log no_log
      publish_request none none untold untold detached_world _ (("ctx_correlation_id", "01ab") ∷ [])
      "ControllerPublishVolume" "NodePublishVolume" tell_id no_context no_context tt refl
      bytes_named refl

-- A log that counts what it was given to write.
abbrev counting : Output ℕ
counting = record {
  level = 4;
  fields = [];
  write = λ entry n. n + 1 + length entry.fields;
  now = λ s. s;
}

abbrev same_bytes : Random ℕ
same_bytes = record { read_bytes = λ n. pure (1 ∷ 171 ∷ []); new_uuid = unavailable }

abbrev secret : Request
secret = record { publish_context = none; text = some "password" }

new_middleware_discreet_example :
    new_middleware same_bytes counting secret some "Probe"
      (λ ctx. pure (context_correlation_id ctx))
      no_context
      0
    ≡ (ok "01ab", 6)
unfolding new_middleware logged_call
new_middleware_discreet_example =
    new_middleware_discreet counting refl same_bytes secret some "Probe"
      (λ ctx. pure (context_correlation_id ctx)) no_context 0
