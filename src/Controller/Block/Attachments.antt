-- ===== src/Controller/Block/Attachments.antt =====
-- Attachments of block storage volumes, and what of publication and its reversal
-- (internal/controller/controller_block_storage.go) attaches nothing.
use upcloud_csi.Base.{
  ◌≡◌, ◌≢◌, sym, ◌∙◌, Bool, true, false, ◌&&◌, Option, none, some, String, str_eq, All,
}
use upcloud_csi.Go.{Action, ok}
use upcloud_csi.Go.Preserves.{Preserves}
use upcloud_csi.Go.Keeps.{Keeps, keeps_rules}
use upcloud_csi.Api.{Storage, StorageDetails, ServerDetails}
use upcloud_csi.Csi.{PublishRequest, UnpublishRequest}
use upcloud_csi.Service.{Service}
use upcloud_csi.Controller.{Controller}
use upcloud_csi.Controller.Block.{
  is_member, find_publish_target, detach_quietly, detach_found_server, detach_found_volume,
  detach_volume_from_node, detach_everywhere, unpublish_volume_from_all_nodes,
}

-- `attached s v j` says whether the volume is attached to the server.
abbrev pub View : Type 0 → Type 0
View S = S → String → String → Bool

-- What is relied on of the service: lookups and waiting attach and detach nothing, and a lookup of a
-- volume names the servers that it is attached to, none of them empty; an attach attaches nothing
-- but its volume, and that to its server only, whether it succeeds or fails; a detach attaches
-- nothing.
pub record Attachments {S : Type 0} (svc : Service S) (attached : View S) : Type 0 where
  pub server_reads :
      (name v j : String) → Preserves (λ s. attached s v j) (svc.get_server_by_hostname name)
  pub volume_reads :
      (uuid v j : String) → Preserves (λ s. attached s v j) (svc.get_block_storage_by_uuid uuid)
  pub wait_reads :
      (x : Storage) (v j : String)
      → Preserves (λ s. attached s v j) (svc.require_block_storage_online x)
  pub names :
      (v : String) (s t : S) (d : StorageDetails)
      → svc.get_block_storage_by_uuid v s ≡ (ok d, t)
      → ((j : String) → attached t v j ≡ is_member j d.server_uuids)
        × All (λ j. j ≢ "") d.server_uuids
  pub attach_others :
      (v j w k : String)
      → (str_eq w v && str_eq k j) ≡ false
      → Preserves (λ s. attached s w k) (svc.attach_block_storage v j)
  pub detach_shrinks :
      (v j w k : String) (s : S)
      → attached (svc.detach_block_storage v j s).1 w k ≡ true
      → attached s w k ≡ true

-- No volume is attached to two servers.
abbrev pub Single : {S : Type 0} → View S → S → Type 0
Single attached s = (v j k : String) → attached s v j ≡ true → attached s v k ≡ true → j ≡ k

module _ {S : Type 0} (c : Controller S) (attached : View S)
    (works : Attachments c.svc attached) where
  -- A call that leaves every attachment as it was.
  reading-Keeps :
      {A : Type 0} (m : Action S A)
      → ((v j : String) → Preserves (λ s. attached s v j) m)
      → Keeps (Single attached) m
  reading-Keeps m reads = record {
    at = λ s single v j k a b.
        single v j k (sym ((reads v j).at s) ∙ a) (sym ((reads v k).at s) ∙ b);
  }

  detach-Keeps : (v j : String) → Keeps (Single attached) (c.svc.detach_block_storage v j)
  detach-Keeps v j = record {
    at = λ s single w x y a b.
        single w x y (works.detach_shrinks v j w x s a) (works.detach_shrinks v j w y s b);
  }

  server-Keeps : (name : String) → Keeps (Single attached) (c.svc.get_server_by_hostname name)
  server-Keeps name = reading-Keeps _ (works.server_reads name)

  volume-Keeps : (uuid : String) → Keeps (Single attached) (c.svc.get_block_storage_by_uuid uuid)
  volume-Keeps uuid = reading-Keeps _ (works.volume_reads uuid)

  wait-Keeps : (x : Storage) → Keeps (Single attached) (c.svc.require_block_storage_online x)
  wait-Keeps x = reading-Keeps _ (works.wait_reads x)

  detach_quietly-Keeps : (v j : String) → Keeps (Single attached) (detach_quietly c v j)
  unfolding detach_quietly
  detach_quietly-Keeps v j = search (keeps_rules, detach-Keeps) depth 12

  found_server-Keeps :
      (v : String) (o : Option ServerDetails) → Keeps (Single attached) (detach_found_server c v o)
  unfolding detach_found_server
  found_server-Keeps v none = search keeps_rules
  found_server-Keeps v (some server) = detach_quietly-Keeps v server.uuid

  detach_found-Keeps :
      (req : UnpublishRequest) (o : Option StorageDetails)
      → Keeps (Single attached) (detach_found_volume c req o)
  unfolding detach_found_volume
  detach_found-Keeps req none = search keeps_rules
  detach_found-Keeps req (some d) = search (keeps_rules, server-Keeps, found_server-Keeps) depth 12

  pub from_node-Keeps :
      (req : UnpublishRequest) → Keeps (Single attached) (detach_volume_from_node c req)
  unfolding detach_volume_from_node
  from_node-Keeps req = search (keeps_rules, volume-Keeps, detach_found-Keeps) depth 12

  everywhere-Keeps :
      (req : UnpublishRequest) (o : Option StorageDetails)
      → Keeps (Single attached) (detach_everywhere c req o)
  unfolding detach_everywhere
  everywhere-Keeps req none = search keeps_rules
  everywhere-Keeps req (some d) = search (keeps_rules, detach_quietly-Keeps) depth 6

  pub from_all-Keeps :
      (req : UnpublishRequest) → Keeps (Single attached) (unpublish_volume_from_all_nodes c req)
  unfolding unpublish_volume_from_all_nodes
  from_all-Keeps req = search (keeps_rules, volume-Keeps, everywhere-Keeps) depth 12

  pub find-Keeps : (req : PublishRequest) → Keeps (Single attached) (find_publish_target c req)
  unfolding find_publish_target
  find-Keeps req = search (keeps_rules, server-Keeps, volume-Keeps, wait-Keeps) depth 14
