-- ===== src/Tests/Attached.antt =====
-- A history of publications over a service that keeps the server of each volume.
use upcloud_csi.Base.{
  ◌≡◌, ◌≢◌, refl, sym, ap, subst, ◌∙◌, pos, Bool, true, false, ◌&&◌, Option, none, some, Bool-cases,
  inl, inr, List, [], ◌∷◌, String, str_eq, eq_iff, eq_refl, IsIn, All, if◌then◌else◌,
}
use upcloud_csi.Go.{ok, pure}
use upcloud_csi.Api.{StorageDetails}
use upcloud_csi.Csi.{PublishRequest, UnpublishRequest}
use upcloud_csi.Service.File.{is_valid_file_storage_uuid}
use upcloud_csi.Controller.Rpc.{controller_unpublish_volume}
use upcloud_csi.Controller.Block.{unpublish_volume_from_all_nodes, detach_quietly}
use upcloud_csi.Controller.Block.Detach.{IsDetach, controller_unpublish_volume_detaches}
use upcloud_csi.Service.{Service}
use upcloud_csi.Controller.Block.{is_member}
use upcloud_csi.Controller.Block.Attachments.{Attachments, Single}
use upcloud_csi.Controller.Rpc.Single.{Call, publishes, unpublishes, run, run-Single}
use upcloud_csi.Tests.Fixtures.{no_service, controller, disk, writer}

-- The server of each volume.
abbrev Table : Type 0
Table = String → Option String

abbrev listed : Option String → List String
listed none = []
listed (some j) = if str_eq j "" then [] else j ∷ []

abbrev is_at : Table → String → String → Bool
is_at s v j = is_member j (listed (s v))

-- A volume that is attached is not attached again.
abbrev attached_now : Option String → String → Option String
attached_now none j = some j
attached_now (some k) j = some k

-- Detached, if it is attached there.
abbrev detached_now : Option String → String → Option String
detached_now none j = none
detached_now (some k) j = if str_eq k j then none else some k

abbrev change : (Option String → String → Option String) → String → String → Table → Table
change f v j s w = if str_eq w v then f (s w) j else s w

abbrev table : Service Table
table = record no_service {
  get_server_by_hostname = λ name. pure (record {
    uuid = name;
    zone = "fi-hel1";
    is_started = true;
    storage_devices = [];
    interfaces = [];
  });
  get_block_storage_by_uuid = λ v s. (ok (disk v "pvc" (pos 10) (listed (s v))), s);
  require_block_storage_online = λ x. pure tt;
  attach_block_storage = λ v j s. (ok tt, change attached_now v j s);
  detach_block_storage = λ v j s. (ok tt, change detached_now v j s);
}

listed-filled : (o : Option String) → All (λ j. j ≢ "") (listed o)
listed-filled none = tt
listed-filled (some j) = elim (Bool-cases (str_eq j "")) [
  | inl empty ↦ rw empty tt
  | inr full ↦ rw full ((λ e. absurd (cc (sym full ∙ (eq_iff j "").1 e))), tt)
]

-- A server other than the one that is attached is listed as before.
attached_elsewhere :
    (o : Option String) (j k : String)
    → str_eq k j ≡ false
    → is_member k (listed (attached_now o j)) ≡ is_member k (listed o)
attached_elsewhere (some x) j k other = refl
attached_elsewhere none j k other = elim (Bool-cases (str_eq j "")) [
  | inl empty ↦ rw empty refl
  | inr full ↦ elim (Bool-cases (str_eq j k)) [
    | inr apart ↦ rw (full, apart) refl
    | inl same ↦ absurd (cc (sym other ∙ (eq_iff k j).1 (sym ((eq_iff j k).0 same))))
  ]
]

detached_shrinks :
    (o : Option String) (j k : String)
    → is_member k (listed (detached_now o j)) ≡ true
    → is_member k (listed o) ≡ true
detached_shrinks none j k e = e
detached_shrinks (some x) j k e = elim (Bool-cases (str_eq x j)) [
  | inl here ↦ absurd (cc (rw here at e))
  | inr other ↦ rw other at e
]

attached_others :
    (v j w k : String)
    → (str_eq w v && str_eq k j) ≡ false
    → (s : Table) → is_at (change attached_now v j s) w k ≡ is_at s w k
attached_others v j w k apart s = elim (Bool-cases (str_eq w v)) [
  | inr other ↦ rw other refl
  | inl here ↦ rw here (attached_elsewhere (s w) j k (rw here at apart))
]

detached_others :
    (v j w k : String) (s : Table)
    → is_at (change detached_now v j s) w k ≡ true
    → is_at s w k ≡ true
detached_others v j w k s e = elim (Bool-cases (str_eq w v)) [
  | inr other ↦ rw other at e
  | inl here ↦ detached_shrinks (s w) j k (rw here at e)
]

table_names :
    (v : String) (s t : Table) (d : StorageDetails)
    → table.get_block_storage_by_uuid v s ≡ (ok d, t)
    → ((j : String) → is_at t v j ≡ is_member j d.server_uuids) × All (λ j. j ≢ "") d.server_uuids
table_names v s t d e =
    let same : disk v "pvc" (pos 10) (listed (s v)) ≡ d = cc e in
    let last : s ≡ t = ap (λ z. z.1) e in
    (
      λ j.
          ap (λ (z : Table). is_at z v j) (sym last)
          ∙ ap (λ (z : StorageDetails). is_member j z.server_uuids) same,
      subst (λ (z : StorageDetails). All (λ j. j ≢ "") z.server_uuids) same (listed-filled (s v)),
    )

table-Attachments : Attachments table is_at
table-Attachments = record {
  server_reads = λ name v j. record { at = λ s. refl };
  volume_reads = λ uuid v j. record { at = λ s. refl };
  wait_reads = λ x v j. record { at = λ s. refl };
  names = table_names;
  attach_others = λ v j w k apart. record { at = attached_others v j w k apart };
  detach_shrinks = detached_others;
}

abbrev publication : String → PublishRequest
publication node_id = record {
  volume_id = "01aa";
  node_id = node_id;
  volume_capability = some writer;
  readonly = false;
  volume_context = [];
}

-- The volume is published, in vain to a second node, and then taken from all nodes.
abbrev history : List Call
history =
    publishes "id1" (publication "a")
    ∷ publishes "id2" (publication "b")
    ∷ unpublishes (record { volume_id = "01aa"; node_id = "" })
    ∷ []

run-Single_example : Single is_at (run (controller table) history (λ v. none))
run-Single_example =
    run-Single (controller table) is_at table-Attachments history (λ v. none)
      (λ v j k a b. absurd (cc a))

detached_gone : (o : Option String) (j : String) → is_member j (listed (detached_now o j)) ≡ false
detached_gone none j = refl
detached_gone (some x) j = elim (Bool-cases (str_eq x j)) [
  | inl here ↦ rw here refl
  | inr other ↦ elim (Bool-cases (str_eq x "")) [
    | inl empty ↦ rw (other, empty) refl
    | inr full ↦ rw (other, full, other) refl
  ]
]

stays_detached :
    (v j k : String) (s : Table)
    → is_at s v k ≡ false
    → is_at (change detached_now v j s) v k ≡ false
stays_detached v j k s free = elim (Bool-cases (is_at (change detached_now v j s) v k)) [
  | inr off ↦ off
  | inl on ↦ absurd (cc (detached_others v j v k s on, free))
]

member-IsIn : (k : String) (js : List String) → is_member k js ≡ true → IsIn k js
member-IsIn k [] e = absurd (cc e)
member-IsIn k (j ∷ js) e = elim (Bool-cases (str_eq j k)) [
  | inl same ↦ inl ((eq_iff j k).0 same)
  | inr other ↦ inr (member-IsIn k js (rw other at e))
]

table-IsDetach : IsDetach table (λ v j s. is_at s v j)
table-IsDetach = record {
  detached-ok = λ v j s s' e.
      subst (λ (z : Table). is_at z v j ≡ false) (ap (λ z. z.1) e)
        (rw (eq_refl v) (detached_gone (s v) j));
  detached-absent = λ v j x s s' e is. absurd (cc e);
  detach-keeps = stays_detached;
  names =
      λ v k s t d e there. member-IsIn k d.server_uuids (sym ((table_names v s t d e).0 k) ∙ there);
  unknown = λ v k x s t e is. absurd (cc e);
}

-- The volume is attached to "a".
abbrev at_a : Table
at_a v = if str_eq v "01aa" then some "a" else none

abbrev from_all : UnpublishRequest
from_all = record { volume_id = "01aa"; node_id = "" }

controller_unpublish_volume_detaches_example :
    is_at (controller_unpublish_volume (controller table) from_all at_a).1 "01aa" "a" ≡ false
unfolding controller_unpublish_volume unpublish_volume_from_all_nodes detach_quietly
    is_valid_file_storage_uuid
controller_unpublish_volume_detaches_example =
    controller_unpublish_volume_detaches (controller table) (λ v j s. is_at s v j) table-IsDetach
      from_all at_a (controller_unpublish_volume (controller table) from_all at_a).1 refl refl refl
      "a"
