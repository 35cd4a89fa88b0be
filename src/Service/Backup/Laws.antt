-- ===== src/Service/Backup/Laws.antt =====
-- Which backups are listed, found and deleted.
use upcloud_csi.Base.{
  ◌≡◌, ◌≢◌, ◌⊎◌, ◌↔◌, inl, inr, refl, true, false, not, ◌&&◌, ◌||◌, List, [], ◌∷◌, String, str_eq,
  eq_iff, keep, arith, Bool-cases, IsIn, keep-IsIn,
}
use upcloud_csi.Go.{ok, err, plain, sentinel, storage_not_found}
use upcloud_csi.Api.{Storage, StorageDetails, backup, is_backup}
use upcloud_csi.Service.Client.{UpcloudService}
use upcloud_csi.Service.Backup.{
  list_block_storage_backups, first_titled, get_block_storage_backup_by_name,
  delete_block_storage_backup,
}

module _ {S : Type 0} (u : UpcloudService S) where
  -- Where the API lists the backups, the listing for a volume has exactly the backups made from it;
  -- the listing for the empty text has exactly the backups made from any volume.
  list_block_storage_backups_iff :
      (origin : String) (s t : S) (storages : List Storage)
      → u.client.get_storages backup s ≡ (ok storages, t)
      → (listed : List Storage) × (list_block_storage_backups u origin s ≡ (ok listed, t))
        × ((b : Storage)
            → IsIn b listed ↔ (
                IsIn b storages
                × (((origin ≡ "") × (b.origin ≢ "")) ⊎ ((origin ≢ "") × (b.origin ≡ origin)))))
  unfolding list_block_storage_backups
  list_block_storage_backups_iff origin s t storages e =
      let test = λ (b : Storage).
        (str_eq origin "" && not (str_eq b.origin ""))
        || (not (str_eq origin "") && str_eq b.origin origin) in
      (
        keep test storages,
        rw e refl,
        λ b. ground (
          arith,
          keep-IsIn test b storages,
          eq_iff origin "",
          eq_iff b.origin "",
          eq_iff b.origin origin,
        ),
      )

  first_titled-ok :
      (name : String) (ss : List Storage) (s t : S) (b : Storage)
      → first_titled u name ss s ≡ (ok b, t)
      → IsIn b ss × (b.title ≡ name) × (s ≡ t)
  unfolding first_titled
  first_titled-ok name [] s t b e = absurd (ground arith)
  first_titled-ok name (x ∷ xs) s t b e = elim (Bool-cases (str_eq x.title name)) [
    | inl same ↦ ground (arith, same, eq_iff x.title name)
    | inr other ↦ ground (arith, first_titled-ok name xs s t b (rw other at e))
  ]

  first_titled-none :
      (name : String) (ss : List Storage) (s : S)
      → ((b : Storage) → IsIn b ss → b.title ≢ name)
      → first_titled u name ss s ≡ (err (sentinel storage_not_found), s)
  unfolding first_titled
  first_titled-none name [] s none' = refl
  first_titled-none name (x ∷ xs) s none' =
      let other : str_eq x.title name ≡ false =
        ground (arith, eq_iff x.title name, none' x (inl refl)) in
      rw other (first_titled-none name xs s (λ b inside. none' b (inr inside)))

  -- Where the API lists the backups, the lookup of a backup by its name returns only a backup of
  -- that list that has the name, and fails with the sentinel where none has it.
  get_block_storage_backup_by_name_lem :
      (name : String) (s t : S) (storages : List Storage)
      → u.client.get_storages backup s ≡ (ok storages, t)
      → ((b : Storage) (t' : S)
          → get_block_storage_backup_by_name u name s ≡ (ok b, t')
          → IsIn b storages × (b.title ≡ name) × (t ≡ t'))
        × (((b : Storage) → IsIn b storages → b.title ≢ name)
            → get_block_storage_backup_by_name u name s ≡ (err (sentinel storage_not_found), t))
  unfolding get_block_storage_backup_by_name
  get_block_storage_backup_by_name_lem name s t storages e = (
    λ b t' found. first_titled-ok name storages t t' b (rw e at found),
    λ none'. rw e (first_titled-none name storages t none'),
  )

  -- Deleting a backup deletes at the API only a storage whose type is backup; any other storage is
  -- left as it is, with an error that is not an API error.
  pub delete_block_storage_backup_only :
      (id : String) (s t : S) (d : StorageDetails)
      → u.client.get_storage_details id s ≡ (ok d, t)
      → ((is_backup d.storage_type ≡ true)
          × (delete_block_storage_backup u id s ≡ u.client.delete_storage d.uuid t))
        ⊎ ((is_backup d.storage_type ≡ false)
            × (delete_block_storage_backup u id s
                ≡ (err (plain "unable to delete storage backup, it has an invalid type"), t)))
  unfolding delete_block_storage_backup
  delete_block_storage_backup_only id s t d e = elim (Bool-cases (is_backup d.storage_type)) [
    | inl yes' ↦ inl (yes', rw (e, yes') refl)
    | inr no' ↦ inr (no', rw (e, no') refl)
  ]
