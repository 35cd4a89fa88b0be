-- ===== src/Controller/Rpc/Delete.antt =====
-- `DeleteVolume` over the implementation of the service: what a repeated deletion answers.
use upcloud_csi.Base.{
  ◌≡◌, ◌≢◌, refl, ap, true, false, String, str_eq, eq_iff, arith, Bool-cases, inl, inr,
  if◌then◌else◌,
}
use upcloud_csi.Go.{
  Action, Result, ok, err, panic, Error, Sentinel, same_sentinel, storage_not_found,
  file_storage_not_found, sentinel, is_error, lift, pure, allow, map_error, ◌>>=◌,
}
use upcloud_csi.Service.Client.{UpcloudService, is_404}
use upcloud_csi.Service.Block.{delete_block_storage}
use upcloud_csi.Service.File.{is_valid_file_storage_uuid, delete_file_storage}
use upcloud_csi.Service.Upcloud.{upcloud_service}
use upcloud_csi.Controller.{Controller}
use upcloud_csi.Controller.Rpc.{delete_volume}

-- An answer of the API with a 404 read as success.
abbrev pub forgive_404 : Result (Unit {0}) → Result (Unit {0})
forgive_404 (ok a) = ok a
forgive_404 (err e) = if is_404 e then ok tt else err e
forgive_404 panic = panic

-- The errors of the API's deletions are none of the sentinels of this program.
pub record IsForeign {S : Type 0} (u : UpcloudService S) : Type 0 where
  pub delete_storage_foreign :
      (id : String) (e : Error) (s t : S) (x : Sentinel)
      → u.client.delete_storage id s ≡ (err e, t)
      → is_error e x ≡ false
  pub delete_file_storage_foreign :
      (id : String) (e : Error) (s t : S) (x : Sentinel)
      → u.client.delete_file_storage id s ≡ (err e, t)
      → is_error e x ≡ false

module _ {S : Type 0} where
  -- A deletion as the service reports it, and as the handler answers.
  abbrev answer : Sentinel → Action S (Unit {0}) → Action S (Unit {0})
  answer x m = allow x (map_error (λ e. if is_404 e then sentinel x else e) m) >>= λ _. pure tt

  answer_of :
      (x : Sentinel) (r : Result (Unit {0})) (t : S)
      → same_sentinel x x ≡ true
      → ((e : Error) → r ≡ err e → is_error e x ≡ false)
      → answer x (lift r) t ≡ (forgive_404 r, t)
  answer_of x (ok a) t same foreign = refl
  answer_of x panic t same foreign = refl
  answer_of x (err e) t same foreign = elim (Bool-cases (is_404 e)) [
    | inl gone ↦ rw (gone, same) refl
    | inr other ↦ rw (other, foreign e refl) refl
  ]

module _ {S : Type 0} (c : Controller S) (u : UpcloudService S) (svc : c.svc ≡ upcloud_service u)
    (foreign : IsForeign u) (id : String) (filled : id ≢ "") (s : S) where
  -- Over `UpCloudService`, where no error of the API is one of the driver's sentinels: a deletion
  -- of a volume by its id, which is not empty, makes one call of the API, for file storage if the
  -- id is one of file storage and for block storage otherwise. Its answer is the API's, except that
  -- a 404 is success, so that deleting again what is gone succeeds.
  pub delete_volume_forgives : delete_volume c id s ≡ (
      let call =
        if is_valid_file_storage_uuid c.library.parses_uuid id
        then u.client.delete_file_storage id
        else u.client.delete_storage id in
      (forgive_404 (call s).0, (call s).1))
  unfolding delete_volume delete_file_storage delete_block_storage
  delete_volume_forgives =
      let named : str_eq id "" ≡ false = ground (arith, eq_iff id "") in
      elim (Bool-cases (is_valid_file_storage_uuid c.library.parses_uuid id)) [
        | inl file ↦
            let r = u.client.delete_file_storage id s in
            rw (named, file, svc)
              (answer_of file_storage_not_found r.0 r.1 refl (λ e is.
                foreign.delete_file_storage_foreign id e s r.1 file_storage_not_found
                  (ap (λ (x : Result (Unit {0})). (x, r.1)) is)))
        | inr block ↦
            let r = u.client.delete_storage id s in
            rw (named, block, svc)
              (answer_of storage_not_found r.0 r.1 refl (λ e is.
                foreign.delete_storage_foreign id e s r.1 storage_not_found
                  (ap (λ (x : Result (Unit {0})). (x, r.1)) is)))
      ]
