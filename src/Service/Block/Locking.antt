-- ===== src/Service/Block/Locking.antt =====
-- The mutex of a server: attach and detach give it back on every path.
use upcloud_csi.Base.{Bool, true, false, ◌≡◌, String, List, [], ◌∷◌, str_eq, if◌then◌else◌, arith}
use upcloud_csi.Go.{Action}
use upcloud_csi.Go.Preserves.{Preserves, if-Preserves, preserves_rules}
use upcloud_csi.Api.{StorageDevice}
use upcloud_csi.Service.Client.{UpcloudService}
use upcloud_csi.Service.Block.{
  wait_for_server_online, attach_locked, detach_device, detach_locked, attach_block_storage,
  detach_block_storage, with_node_lock,
}

-- `held k s` says whether the mutex of server `k` is held. Locking and unlocking change the mutex of
-- one server, and the calls of the API client change none.
pub record IsMutex {S : Type 0} (u : UpcloudService S) (held : String → S → Bool) : Type 0 where
  pub held-lock :
      (j k : String) (s : S) → held k (u.lock j s) ≡ (if str_eq j k then true else held k s)
  pub held-unlock :
      (j k : String) (s : S) → held k (u.unlock j s) ≡ (if str_eq j k then false else held k s)
  pub held-wait : (j k : String) → Preserves (held k) (u.client.wait_for_server_started j)
  pub held-details : (j k : String) → Preserves (held k) (u.client.get_server_details j)
  pub held-attach : (j v a k : String) → Preserves (held k) (u.client.attach_storage j v a)
  pub held-detach : (j a k : String) → Preserves (held k) (u.client.detach_storage j a)

module _ {S : Type 0} (u : UpcloudService S) (held : String → S → Bool)
    (mutex : IsMutex u held) where
  online-Preserves : (j k : String) → Preserves (held k) (wait_for_server_online u j)
  unfolding wait_for_server_online
  online-Preserves j k = search (preserves_rules, mutex.held-wait)

  attach_locked-Preserves : (v j k : String) → Preserves (held k) (attach_locked u v j)
  unfolding attach_locked
  attach_locked-Preserves v j k =
      search (preserves_rules, online-Preserves, mutex.held-attach) depth 8

  detach_device-Preserves :
      (v j k : String) (ds : List StorageDevice) → Preserves (held k) (detach_device u v j ds)
  unfolding detach_device
  detach_device-Preserves v j k [] = search preserves_rules
  detach_device-Preserves v j k (d ∷ ds) =
      if-Preserves (str_eq d.uuid v) _ _
        (search (preserves_rules, online-Preserves, mutex.held-detach) depth 8)
        (detach_device-Preserves v j k ds)

  detach_locked-Preserves : (v j k : String) → Preserves (held k) (detach_locked u v j)
  unfolding detach_locked
  detach_locked-Preserves v j k =
      search (preserves_rules, online-Preserves, mutex.held-details, detach_device-Preserves) depth
        8

  with_node_lock-held :
      {A : Type 0} (j k : String) (m : Action S A) (s : S)
      → Preserves (held k) m
      → held k (with_node_lock u j m s).1 ≡ (if str_eq j k then false else held k s)
  unfolding with_node_lock
  with_node_lock-held j k m s keeps = ground (
    arith,
    mutex.held-unlock j k (m (u.lock j s)).1,
    keeps.at (u.lock j s),
    mutex.held-lock j k s,
  )

  -- Where the calls of the API change no mutex: after an attach or a detach, whether it succeeds,
  -- fails or panics, the mutex of its server is free and every other mutex is as it was.
  pub attach_detach_release :
      (v j k : String) (s : S)
      → (held k (attach_block_storage u v j s).1 ≡ (if str_eq j k then false else held k s))
        × (held k (detach_block_storage u v j s).1 ≡ (if str_eq j k then false else held k s))
  unfolding attach_block_storage detach_block_storage
  attach_detach_release v j k s = (
    with_node_lock-held j k (attach_locked u v j) s (attach_locked-Preserves v j k),
    with_node_lock-held j k (detach_locked u v j) s (detach_locked-Preserves v j k),
  )
