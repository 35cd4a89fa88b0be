-- ===== src/Service/Block/Attachments.antt =====
-- What an attach or a detach that succeeds has seen, and what a detach leaves alone.
use upcloud_csi.Base.{
  true, false, ◌≡◌, refl, inl, inr, String, List, [], ◌∷◌, str_eq, eq_iff, if◌then◌else◌, arith,
  Bool-cases, IsIn,
}
use upcloud_csi.Go.{
  ok, err, wrap, sentinel, plain, server_storage_not_found, pure, raise, map_error,
}
use upcloud_csi.Go.Inversion.{bind-eq-ok}
use upcloud_csi.Api.{StorageDevice, ServerDetails}
use upcloud_csi.Service.Client.{UpcloudService}
use upcloud_csi.Service.Block.{
  has_device, wait_for_server_online, attach_locked, detach_device, detach_locked,
}

module _ {S : Type 0} (u : UpcloudService S) (v j : String) where
  -- The API attached the storage, and lists it among the devices of the server.
  pub record HasAttached (s' : S) : Type 0 where
    pub before : S
    pub after : S
    pub details : ServerDetails
    pub attached : u.client.attach_storage j v "virtio" before ≡ (ok details, after)
    pub listed : has_device v details.storage_devices ≡ true
    pub online : wait_for_server_online u j after ≡ (ok tt, s')

  -- The API detached a device of the server that holds the storage, and no longer lists it.
  pub record HasDetached (devices : List StorageDevice) (s' : S) : Type 0 where
    pub before : S
    pub after : S
    pub device : StorageDevice
    pub details : ServerDetails
    pub known : IsIn device devices
    pub holds : device.uuid ≡ v
    pub detached : u.client.detach_storage j device.address before ≡ (ok details, after)
    pub gone : has_device v details.storage_devices ≡ false
    pub online : wait_for_server_online u j after ≡ (ok tt, s')

  attach_end :
      (t s' : S) (details : ServerDetails)
      → (if has_device v details.storage_devices
            then wait_for_server_online u j
            else raise (plain "storage device not found after attaching to server"))
          t
        ≡ (ok tt, s')
      → (has_device v details.storage_devices ≡ true) × (wait_for_server_online u j t ≡ (ok tt, s'))
  attach_end t s' details e = elim (Bool-cases (has_device v details.storage_devices)) [
    | inl yes' ↦ (yes', rw yes' at e)
    | inr no' ↦ absurd (cc (rw no' at e))
  ]

  -- An attach that succeeds has been made by the API, which lists the storage among the devices of
  -- the server, and the server was seen online after it.
  pub attach_locked-HasAttached : (s s' : S) → attach_locked u v j s ≡ (ok tt, s') → HasAttached s'
  unfolding attach_locked
  attach_locked-HasAttached s s' e =
      let (_, t, waited, e₁) =
        bind-eq-ok (map_error wrap (wait_for_server_online u j)) _ s s' tt e in
      let (details, t', attached, e₂) =
        bind-eq-ok (u.client.attach_storage j v "virtio") _ t s' tt e₁ in
      let (listed, online) = attach_end t' s' details e₂ in
      record {
        before = t;
        after = t';
        details = details;
        attached = attached;
        listed = listed;
        online = online;
      }

  detach_end :
      (t s' : S) (details : ServerDetails)
      → (if has_device v details.storage_devices
            then raise (plain "storage device still attached")
            else wait_for_server_online u j)
          t
        ≡ (ok tt, s')
      → (has_device v details.storage_devices ≡ false)
        × (wait_for_server_online u j t ≡ (ok tt, s'))
  detach_end t s' details e = elim (Bool-cases (has_device v details.storage_devices)) [
    | inl yes' ↦ absurd (cc (rw yes' at e))
    | inr no' ↦ (no', rw no' at e)
  ]

  HasDetached-cons :
      (d : StorageDevice) (ds : List StorageDevice) (s' : S)
      → HasDetached ds s'
      → HasDetached (d ∷ ds) s'
  HasDetached-cons d ds s' h = record {
    before = h.before;
    after = h.after;
    device = h.device;
    details = h.details;
    known = inr h.known;
    holds = h.holds;
    detached = h.detached;
    gone = h.gone;
    online = h.online;
  }

  detach_device-HasDetached :
      (ds : List StorageDevice) (s s' : S)
      → detach_device u v j ds s ≡ (ok tt, s')
      → HasDetached ds s'
  unfolding detach_device
  detach_device-HasDetached [] s s' e = absurd (cc e)
  detach_device-HasDetached (d ∷ ds) s s' e = elim (Bool-cases (str_eq d.uuid v)) [
    | inl same ↦
        let (details, t', detached, e₁) =
          bind-eq-ok (u.client.detach_storage j d.address) _ s s' tt (rw same at e) in
        let (gone, online) = detach_end t' s' details e₁ in
        record {
          before = s;
          after = t';
          device = d;
          details = details;
          known = inl refl;
          holds = (eq_iff d.uuid v).0 same;
          detached = detached;
          gone = gone;
          online = online;
        }
    | inr other ↦ HasDetached-cons d ds s' (detach_device-HasDetached ds s s' (rw other at e))
  ]

  -- A detach that succeeds has read the server's devices, and the API detached one of them that
  -- holds the storage and no longer lists it; the server was seen online after it.
  pub detach_locked-HasDetached :
      (s s' : S)
      → detach_locked u v j s ≡ (ok tt, s')
      → (sd : ServerDetails) × (t : S) × (u.client.get_server_details j s ≡ (ok sd, t))
        × HasDetached sd.storage_devices s'
  unfolding detach_locked
  detach_locked-HasDetached s s' e =
      let (sd, t, read, e₁) = bind-eq-ok (u.client.get_server_details j) _ s s' tt e in
      let (_, t', waited, e₂) =
        bind-eq-ok {A = Unit {0}}
          (if sd.is_started then pure tt else map_error wrap (wait_for_server_online u j))
          (λ _. detach_device u v j sd.storage_devices) t s' tt e₁ in
      (sd, t, read, detach_device-HasDetached sd.storage_devices t' s' e₂)

  detach_device_absent :
      (ds : List StorageDevice) (s : S)
      → has_device v ds ≡ false
      → detach_device u v j ds s ≡ (err (sentinel server_storage_not_found), s)
  unfolding detach_device
  detach_device_absent [] s h = refl
  detach_device_absent (d ∷ ds) s h =
      ground (arith, eq_iff v d.uuid, eq_iff d.uuid v, detach_device_absent ds s)

  -- Where the server is started and none of its devices holds the storage, a detach asks the API
  -- for no change and fails with the error that the handlers take for done.
  detach_locked_absent :
      (s t : S) (sd : ServerDetails)
      → u.client.get_server_details j s ≡ (ok sd, t)
      → sd.is_started ≡ true
      → has_device v sd.storage_devices ≡ false
      → detach_locked u v j s ≡ (err (sentinel server_storage_not_found), t)
  unfolding detach_locked
  detach_locked_absent s t sd read started absent =
      rw (read, started) (detach_device_absent sd.storage_devices t absent)
