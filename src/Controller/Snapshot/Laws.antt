-- ===== src/Controller/Snapshot/Laws.antt =====
-- Creating a snapshot twice, and what a deletion of a snapshot can delete.
use upcloud_csi.Base.{
  ◌≡◌, ◌≢◌, ◌⊎◌, inl, inr, refl, subst, true, false, ◌&&◌, none, some, String, str_eq, ◌==◌, eq_iff,
  arith, Bool-cases, if◌then◌else◌,
}
use upcloud_csi.Go.{
  ok, err, panic, Result, as_problem, catch, lift, Error, is_error, status, allow,
  storage_not_found, pure, internal, aborted, backup_in_progress, map_error,
}
use upcloud_csi.Go.Inversion.{bind-eq-ok, map_error-eq-ok, allow-eq-ok}
use upcloud_csi.Api.{Storage, StorageDetails, is_backup}
use upcloud_csi.Csi.{CreateSnapshotRequest, Snapshot}
use upcloud_csi.Service.Client.{UpcloudService}
use upcloud_csi.Service.Upcloud.{upcloud_service}
use upcloud_csi.Service.Block.{is_valid_block_storage_uuid}
use upcloud_csi.Service.Backup.Laws.{delete_block_storage_backup_only}
use upcloud_csi.Service.File.{is_valid_file_storage_uuid}
use upcloud_csi.Controller.{Controller}
use upcloud_csi.Controller.Snapshot.{
  create_snapshot, take_backup, delete_snapshot, forgive_delete, snapshot_of,
}

-- What is relied on of a backup that was made: it has the origin that was asked for, and, where the
-- lookup of its title found none before, the lookup finds it now, without a change. A lookup that
-- found a backup finds it again.
pub record IsBackupStore {S : Type 0} (c : Controller S) : Type 0 where
  pub made-origin :
      (v title : String) (s t : S) (d : StorageDetails)
      → c.svc.create_block_storage_backup v title s ≡ (ok d, t)
      → d.origin ≡ v
  pub made-found :
      (v title : String) (x : Error) (s₀ s t : S) (d : StorageDetails)
      → c.svc.get_block_storage_backup_by_name title s₀ ≡ (err x, s)
      → is_error x storage_not_found ≡ true
      → c.svc.create_block_storage_backup v title s ≡ (ok d, t)
      → c.svc.get_block_storage_backup_by_name title t ≡ (ok d.storage, t)
  pub found-again :
      (title : String) (s t : S) (b : Storage)
      → c.svc.get_block_storage_backup_by_name title s ≡ (ok b, t)
      → c.svc.get_block_storage_backup_by_name title t ≡ (ok b, t)

module _ {S : Type 0} (c : Controller S) (req : CreateSnapshotRequest) where
  -- The request names the snapshot and a source that is not file storage.
  abbrev pub IsAnswerable : Type 0
  IsAnswerable =
      (str_eq req.name "" ≡ false)
      × (str_eq req.source_volume_id "" ≡ false)
      × (is_valid_file_storage_uuid c.library.parses_uuid req.source_volume_id ≡ false)

  create_snapshot-IsAnswerable :
      (s s' : S) (r : Snapshot) → create_snapshot c req s ≡ (ok r, s') → IsAnswerable
  unfolding create_snapshot
  create_snapshot-IsAnswerable s s' r e = ground arith

  -- A snapshot of the name that has the source was there, and is the answer; or there was none, and
  -- one was made.
  abbrev pub IsTaken : S → S → Snapshot → Type 0
  IsTaken s s' r =
      ((b : Storage) × (c.svc.get_block_storage_backup_by_name req.name s ≡ (ok b, s'))
        × (b.origin ≡ req.source_volume_id)
        × (r ≡ snapshot_of b))
      ⊎ ((x : Error) × (t : S) × (d : StorageDetails) × (is_error x storage_not_found ≡ true)
          × (c.svc.get_block_storage_backup_by_name req.name s ≡ (err x, t))
          × (c.svc.create_block_storage_backup req.source_volume_id req.name t ≡ (ok d, s'))
          × (r ≡ snapshot_of d.storage))

  take_there :
      (b b' : Storage) (t t' : S)
      → take_backup c req (some b) t ≡ (ok b', t')
      → (b ≡ b') × (b.origin ≡ req.source_volume_id) × (t ≡ t')
  unfolding take_backup
  take_there b b' t t' e = ground (arith, eq_iff b.origin req.source_volume_id)

  take_made :
      (b' : Storage) (t t' : S)
      → take_backup c req none t ≡ (ok b', t')
      → (d : StorageDetails) × (c.svc.create_block_storage_backup req.source_volume_id req.name t
          ≡ (ok d, t'))
        × (b' ≡ d.storage)
  unfolding take_backup
  take_made b' t t' e =
      let call = c.svc.create_block_storage_backup req.source_volume_id req.name in
      let f =
        λ (e : Error). if is_error e backup_in_progress then status aborted else status internal in
      let (d, t₁, made, e₁) =
        bind-eq-ok (map_error f call) (λ (sd : StorageDetails). pure sd.storage) t t' b' e in
      let same : t₁ ≡ t' = ground arith in
      (d, rw same at (map_error-eq-ok f call t t₁ d made), ground arith)

  create_snapshot-IsTaken :
      (s s' : S) (r : Snapshot) → create_snapshot c req s ≡ (ok r, s') → IsTaken s s' r
  unfolding create_snapshot take_backup
  create_snapshot-IsTaken s s' r e =
      let (named, sourced, block) = create_snapshot-IsAnswerable s s' r e in
      let e₁ = rw (named, sourced, block) at e in
      let call = c.svc.get_block_storage_backup_by_name req.name in
      let create = c.svc.create_block_storage_backup req.source_volume_id req.name in
      let (o, t, found, e₂) =
        bind-eq-ok (map_error (λ e. status internal) (allow storage_not_found call)) _ s s' r e₁ in
      let (b, t', taken, e₃) = bind-eq-ok (take_backup c req o) _ t s' r e₂ in
      let found' =
        map_error-eq-ok (λ e. status internal) (allow storage_not_found call) s t o found in
      elim (allow-eq-ok storage_not_found call s t o found') [
        | inl (b', is, got) ↦
            let (same, origin, same') = take_there b' b t t' (rw is at taken) in
            let last : t ≡ s' = ground arith in
            let value : r ≡ snapshot_of b' = ground arith in inl (b', rw last at got, origin, value)
        | inr (x, is, absent, got) ↦
            let (d, made, same) = take_made b t t' (rw is at taken) in
            let last : t' ≡ s' = ground arith in
            let value : r ≡ snapshot_of d.storage = ground arith in
            let made' = subst (λ z. create t ≡ (ok d, z)) last made in
            inr (x, t, d, absent, got, made', value)
      ]

  create_snapshot_there :
      (b : Storage) (s t : S)
      → IsAnswerable
      → c.svc.get_block_storage_backup_by_name req.name s ≡ (ok b, t)
      → b.origin ≡ req.source_volume_id
      → create_snapshot c req s ≡ (ok (snapshot_of b), t)
  unfolding create_snapshot take_backup
  create_snapshot_there b s t (named, sourced, block) found origin =
      let same : str_eq b.origin req.source_volume_id ≡ true =
        (eq_iff b.origin req.source_volume_id).1 origin in
      rw (named, sourced, block, found, same) refl

  -- Over a service that finds the backups that it makes and finds them again: asking again for a
  -- snapshot that was answered gives the same snapshot and changes nothing, so that no second
  -- backup is made.
  pub create_snapshot_idempotent :
      (s s' : S) (r : Snapshot)
      → IsBackupStore c
      → create_snapshot c req s ≡ (ok r, s')
      → create_snapshot c req s' ≡ (ok r, s')
  create_snapshot_idempotent s s' r store e =
      let answerable = create_snapshot-IsAnswerable s s' r e in
      elim (create_snapshot-IsTaken s s' r e) [
        | inl (b, found, origin, value) ↦ rw value (
            create_snapshot_there b s' s' answerable (store.found-again req.name s s' b found)
              origin)
        | inr (x, t, d, absent, missing, made, value) ↦ rw value (
            create_snapshot_there d.storage s' s' answerable
              (store.made-found req.source_volume_id req.name x s t s' d missing absent made)
              (store.made-origin req.source_volume_id req.name t s' d made))
      ]

-- The answer for what the API's deletion gave.
abbrev pub reported : Result (Unit {0}) → Result (Unit {0})
reported (ok a) = ok a
reported (err e) = elim (as_problem e) [
  | none ↦ ok tt
  | some p ↦ if p.http_status == 404 then ok tt else err (status internal)
]
reported panic = panic

forgive_delete-reported :
    {S : Type 0} (c : Controller S) (r : Result (Unit {0})) (t : S)
    → catch (lift r) (forgive_delete c) t ≡ (reported r, t)
unfolding forgive_delete
forgive_delete-reported c (ok a) t = refl
forgive_delete-reported c (err e) t = ground arith
forgive_delete-reported c panic t = refl

module _ {S : Type 0} (c : Controller S) (u : UpcloudService S) (svc : c.svc ≡ upcloud_service u)
    (id : String) (s t : S) (d : StorageDetails)
    (read : u.client.get_storage_details id s ≡ (ok d, t)) where
  -- Over `UpCloudService`, where the storage of an id that is not empty can be read. For a block
  -- storage id whose storage is a backup, deleting the snapshot is the API's deletion of that very
  -- storage, with a 404 and an error that is not the API's read as success. For any other id it
  -- deletes nothing: it succeeds, and has at most read the storage.
  pub delete_snapshot_only_backups :
      id ≢ ""
      → ((is_valid_block_storage_uuid c.library.parses_uuid id ≡ true)
          × (is_backup d.storage_type ≡ true)
          × (delete_snapshot c id s ≡ (
            reported (u.client.delete_storage d.uuid t).0,
            (u.client.delete_storage d.uuid t).1,
          )))
        ⊎ ((is_valid_block_storage_uuid c.library.parses_uuid id && is_backup d.storage_type)
            ≡ false)
          × ((delete_snapshot c id s ≡ (ok tt, s)) ⊎ (delete_snapshot c id s ≡ (ok tt, t)))
  unfolding delete_snapshot
  delete_snapshot_only_backups filled =
      let named : str_eq id "" ≡ false = ground (arith, eq_iff id "") in
      elim (Bool-cases (is_valid_block_storage_uuid c.library.parses_uuid id)) [
        | inr invalid ↦ inr (rw invalid refl, inl (rw (named, invalid) refl))
        | inl valid ↦ elim (delete_block_storage_backup_only u id s t d read) [
          | inl (yes', call) ↦
              let (r, t') = u.client.delete_storage d.uuid t in
              inl (valid, yes', rw (named, valid, svc, call) (forgive_delete-reported c r t'))
          | inr (no', call) ↦ inr (rw (valid, no') refl, inr (rw (named, valid, svc, call) refl))
        ]
      ]
