-- ===== src/Tests/Volumes.antt =====
-- Volumes created, listed, expanded and deleted.
use upcloud_csi.Base.{
  ℕ, ℤ, pos, ◌+◌, ◌*◌, ◌^◌, ◌≡◌, ◌≤ℤ◌, sym, ◌≢◌, ◌⊎◌, refl, ap, true, false, Option, none, some,
  List, [], ◌∷◌, String, str_eq, eq_refl, eq_iff, All, map, arith, if◌then◌else◌, quot, suc,
}
use upcloud_csi.Go.{ok, err, problem, status, already_exists, pure}
use upcloud_csi.Api.{Storage, StorageDetails, CreateStorageRequest, normal}
use upcloud_csi.Csi.{Volume, ExpandRequest, ExpandResponse}
use upcloud_csi.Service.Client.{UpcloudService}
use upcloud_csi.Service.File.{is_valid_file_storage_uuid}
use upcloud_csi.Service.Upcloud.{upcloud_service}
use upcloud_csi.Controller.{gi_b, Controller, bytes_of}
use upcloud_csi.Controller.Capacity.{
  validate_capacity_range, min_block_storage_size, max_block_storage_size,
}
use upcloud_csi.Controller.Requests.{
  validate_create_volume_request, create_volume_request_tier,
  create_volume_request_encryption_at_rest,
}
use upcloud_csi.Controller.Capabilities.{validate_capabilities}
use upcloud_csi.Controller.Capabilities.Laws.{IsBlockUse, IsFileUse}
use upcloud_csi.Controller.Requests.Laws.{AllInZone}
use upcloud_csi.Controller.Block.{expand_block_storage, create_block_storage_volume, make_volume}
use upcloud_csi.Controller.Block.Expand.{
  IsAfter, expand_block_storage_never_shrinks, expand_block_storage_promise,
}
use upcloud_csi.Controller.Rpc.{create_volume, create_block_volume, delete_volume, volume_entry}
use upcloud_csi.Controller.Rpc.Create.{
  IsVolumeStore, asks_file, create_volume-valid, create_block_volume_again,
}
use upcloud_csi.Controller.Rpc.Delete.{IsForeign, delete_volume_forgives}
use upcloud_csi.Controller.Rpc.Listing.{walk, walk-all}
use upcloud_csi.Tests.Fixtures.{
  no_client, no_service, controller, disk, storage, create_request, at_least,
}
use upcloud_csi.Tests.Requests.{library-IsSetList}

-- A cloud with at most one storage, which has the title that it was made with.
abbrev One : Type 0
One = Option StorageDetails

named : String → One → List (Option StorageDetails)
named title none = []
named title (some d) = if str_eq d.title title then some d ∷ [] else []

abbrev made : CreateStorageRequest → StorageDetails
made r = disk "01" r.title r.size []

abbrev store : Controller One
store = controller (record no_service {
  get_block_storage_by_name = λ title w. (ok (named title w), w);
  create_block_storage = λ r w. (ok (made r), some (made r));
  resize_block_device = λ id size w. (ok (disk id "pvc" size []), some (disk id "pvc" size []));
})

named-made : (r : CreateStorageRequest) → named r.title (some (made r)) ≡ some (made r) ∷ []
unfolding named
named-made r = rw (eq_refl r.title) refl

made-eq :
    (r : CreateStorageRequest) (s t : One) (d : StorageDetails)
    → store.svc.create_block_storage r s ≡ (ok d, t)
    → (d ≡ made r) × (t ≡ some (made r))
made-eq r s t d e = (ground arith, ground arith)

store-IsVolumeStore : IsVolumeStore store
store-IsVolumeStore = record {
  made-size = λ r s t d e. ap (λ (x : StorageDetails). x.size) (made-eq r s t d e).0;
  made-only = λ r s₀ s t d missing e.
      rw ((made-eq r s t d e).0, (made-eq r s t d e).1)
        (ap (λ (l : List (Option StorageDetails)). (ok l, some (made r))) (named-made r));
}

-- 5 GiB and one byte.
abbrev odd : ℕ
odd = 5 * 2 ^ 30 + 1

-- The volume that the first call answers with.
abbrev odd_volume : Volume
odd_volume = record {
  volume_id = "01";
  capacity_bytes = pos odd;
  accessible_topology = (("region", "fi-hel1") ∷ []) ∷ [];
  content_source = none;
  volume_context = [];
}

abbrev odd_world : One
odd_world = some (disk "01" "pvc" (pos 5) [])

create_block_volume_again_example :
    create_block_volume store (create_request odd) odd_world
    ≡ (err (status already_exists), odd_world)
unfolding named create_block_volume create_block_storage_volume make_volume
    validate_create_volume_request validate_capabilities create_volume_request_tier
    create_volume_request_encryption_at_rest validate_capacity_range quot
create_block_volume_again_example =
    create_block_volume_again store (create_request odd) refl 5 1 none none odd_world odd_volume
      store-IsVolumeStore (omega arith) (omega arith) refl refl refl

create_volume-valid_example :
    ((create_request odd).name ≢ "")
    × ((create_request odd).volume_capabilities ≢ [])
    × AllInZone "fi-hel1" (create_request odd).requisite
    × (((asks_file store (create_request odd) ≡ true)
          × All IsFileUse (create_request odd).volume_capabilities)
        ⊎ ((asks_file store (create_request odd) ≡ false)
            × All IsBlockUse (create_request odd).volume_capabilities))
unfolding named create_volume create_block_volume create_block_storage_volume make_volume
    validate_create_volume_request validate_capabilities create_volume_request_tier
    create_volume_request_encryption_at_rest validate_capacity_range quot
create_volume-valid_example =
    create_volume-valid store (create_request odd) none odd_world odd_volume library-IsSetList refl

abbrev expand_request : ExpandRequest
expand_request = record {
  volume_id = "01";
  capacity_range = some (at_least odd);
  volume_capability = none;
}

abbrev small : StorageDetails
small = disk "01" "pvc" (pos 4) []

-- What the expansion answers, for 5 GiB and one byte.
abbrev expanded : ExpandResponse
expanded = record { capacity_bytes = pos (5 * 2 ^ 30); node_expansion_required = true }

resizes_exactly :
    (id : String) (z : ℤ) (d : StorageDetails) (t t' : One)
    → store.svc.resize_block_device id z t ≡ (ok d, t')
    → d.size ≡ z
resizes_exactly id z d t t' e =
    let same : disk id "pvc" z [] ≡ d = cc e in sym (ap (λ (x : StorageDetails). x.size) same)

expand_block_storage_never_shrinks_example :
    (size : ℤ) × (validate_capacity_range
        (some (at_least odd))
        min_block_storage_size
        max_block_storage_size
      ≡ ok size)
    × ((after : StorageDetails) × IsAfter store expand_request small size after none odd_world
        × (quot size gi_b ≤ℤ after.size)
        × (expanded.capacity_bytes ≡ bytes_of after.size))
unfolding expand_block_storage validate_capacity_range quot bytes_of
expand_block_storage_never_shrinks_example =
    expand_block_storage_never_shrinks store expand_request small resizes_exactly none odd_world
      expanded refl

expand_block_storage_promise_example : expanded.capacity_bytes ≡ pos (5 * 2 ^ 30)
unfolding expand_block_storage validate_capacity_range quot bytes_of
expand_block_storage_promise_example =
    expand_block_storage_promise store expand_request small 5 1 4 (at_least odd) refl refl
      (omega arith) refl (omega arith) none odd_world expanded (omega arith) refl

-- An API that knows no storage and answers every deletion with a 404.
abbrev empty : UpcloudService ℕ
empty = record {
  client = record no_client {
    delete_storage = λ id n. (err (problem (record { http_status = 404; error_code = "" })), suc n);
    delete_file_storage =
        λ id n. (err (problem (record { http_status = 404; error_code = "" })), suc n);
  };
  lock = λ j n. n;
  unlock = λ j n. n;
}

empty-IsForeign : IsForeign empty
empty-IsForeign = record {
  delete_storage_foreign = λ id e s t x is. ground arith;
  delete_file_storage_foreign = λ id e s t x is. ground arith;
}

delete_volume_forgives_example :
    delete_volume (controller (upcloud_service empty)) "17aa" 0 ≡ (ok tt, 1)
unfolding is_valid_file_storage_uuid
delete_volume_forgives_example =
    delete_volume_forgives (controller (upcloud_service empty)) empty refl empty-IsForeign "17aa"
      (λ e. absurd (cc ((eq_iff "17aa" "").1 e))) 0

-- Two storages, the second in another zone.
abbrev two : List Storage
two =
    storage normal "01" "a" (pos 10) ""
    ∷ record (storage normal "02" "b" (pos 20) "") { zone = "de-fra1" }
    ∷ []

abbrev listing : UpcloudService ℕ
listing = record {
  client = record no_client { get_storages = λ kind. pure two };
  lock = λ j n. n;
  unlock = λ j n. n;
}

abbrev two_volumes : Controller ℕ
two_volumes =
    controller
      (record no_service { list_block_storage = λ zone. pure two; get_file_storages = pure [] })

walk-all_example : walk two_volumes 1 3 [] 0 ≡ (ok (map volume_entry two), 0)
walk-all_example = walk-all two_volumes 0 two [] refl refl 1 (omega arith) (omega arith)
