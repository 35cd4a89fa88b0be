-- ===== src/Service/Block/Lookup.antt =====
-- Which kind of volume an id names, and which storages are listed.
use Prim.Native.String.{slice}
use upcloud_csi.Base.{
  ◌≡◌, ◌↔◌, refl, ap, Bool, true, false, ◌&&◌, List, String, str_eq, eq_iff, keep, arith,
  starts_with, IsIn, keep-IsIn,
}
use upcloud_csi.Go.{ok}
use upcloud_csi.Api.{Storage, normal, is_normal}
use upcloud_csi.Service.Client.{UpcloudService}
use upcloud_csi.Service.Block.{is_valid_block_storage_uuid, list_block_storage}
use upcloud_csi.Service.File.{is_valid_file_storage_uuid}

starts_disjoint : (s : String) → starts_with s "01" ≡ true → starts_with s "17" ≡ false
starts_disjoint s e =
    let prefix : slice s 0 2 ≡ "01" = (eq_iff (slice s 0 2) "01").0 e in
    ap (λ p. str_eq p "17") prefix

-- No id is that of a block storage and that of a file storage, whatever the UUID parser accepts.
is_valid_storage_uuid_disjoint :
    (parses : String → Bool) (id : String)
    → is_valid_block_storage_uuid parses id ≡ true
    → is_valid_file_storage_uuid parses id ≡ false
unfolding is_valid_block_storage_uuid is_valid_file_storage_uuid
is_valid_storage_uuid_disjoint parses id e = ground (arith, starts_disjoint id)

module _ {S : Type 0} (u : UpcloudService S) where
  -- Where the API lists the storages of type `normal`, the listing of block storage has exactly
  -- those of them that lie in the zone and have that type.
  list_block_storage_iff :
      (zone : String) (s t : S) (storages : List Storage)
      → u.client.get_storages normal s ≡ (ok storages, t)
      → (listed : List Storage) × (list_block_storage u zone s ≡ (ok listed, t))
        × ((x : Storage)
            → IsIn x listed
              ↔ (IsIn x storages × (x.zone ≡ zone) × (is_normal x.storage_type ≡ true)))
  unfolding list_block_storage
  list_block_storage_iff zone s t storages e =
      let test = λ (x : Storage). str_eq x.zone zone && is_normal x.storage_type in
      (
        keep test storages,
        rw e refl,
        λ x. ground (arith, keep-IsIn test x storages, eq_iff x.zone zone),
      )
