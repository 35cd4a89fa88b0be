-- ===== src/Filesystem/Success.antt =====
-- Formatting succeeds where the tools work (internal/filesystem/linux_filesystem.go).
use upcloud_csi.Base.{
  ◌≡◌, refl, ap, ◌∙◌, arith, Bool, true, false, none, some, Option-cases, ◌⊎◌, inl, inr, List, [],
  ◌∷◌, ◌++◌, String, ◌<>◌, str_eq, if◌then◌else◌, eqb_ℤ, pos,
}
use upcloud_csi.Go.{Result, ok, err, Error, wrap}
use upcloud_csi.Go.Text.{to_lower, trim_space}
use upcloud_csi.Filesystem.System.{System, Output, run_or_wrap}
use upcloud_csi.Filesystem.Disks.{sfdisk_output_get_last_partition, cmd_exit_code}
use upcloud_csi.Filesystem.Probes.{
  probe_args, list_args, mkpart_args, probe, has_partition_table, filesystem_exists,
  get_device_last_partition, create_partition_table_if_not_exists, create_partition_if_not_exists,
  create_filesystem_if_not_exists, is_supported_filesystem, format_volume, make_table,
  make_filesystem, format_disk,
}
use upcloud_csi.Filesystem.Tools.{IsProbed, Tools, lists_only, get_device_last_partition-lists}
use upcloud_csi.Filesystem.Partitioned.{IsPartitioned, created_table, created_partition}

-- blkid finds something, or says with its exit code that it found nothing.
abbrev pub Answers : Output → Type 0
Answers out =
    (out.failure ≡ none)
    ⊎ ((c : Error) × (out.failure ≡ some c) × (eqb_ℤ (cmd_exit_code c) (pos 2) ≡ true))

-- The tools work, whatever is on the disk: blkid answers; a table can be made; on a disk with a
-- table a partition can be made, and it is then listed; in a partition a filesystem can be made.
pub record Working {S : Type 0} (y : System S) (device partition fs_type : String)
    (args : List String) (tools : Tools y device partition fs_type args) : Type 0 where
  pub table_answers : (s : S) → Answers (y.run "blkid" (probe_args "PTTYPE" "gpt" device) s).0
  pub type_answers : (s : S) → Answers (y.run "blkid" (probe_args "TYPE" fs_type partition) s).0
  pub mklabel_works :
      (s : S) → (y.run "parted" (device ∷ "mklabel" ∷ "gpt" ∷ []) s).0.failure ≡ none
  pub mkpart_works :
      (s : S)
      → IsProbed y "PTTYPE" "gpt" device s
      → (y.run "parted" (mkpart_args device) s).0.failure ≡ none
  pub mkpart_lists :
      (s : S)
      → (y.run "parted" (mkpart_args device) s).0.failure ≡ none
      → let out = (y.run "sfdisk" (list_args device) (y.run "parted" (mkpart_args device) s).1).0 in
        (out.failure ≡ none) × (sfdisk_output_get_last_partition device out.text ≡ ok partition)
  pub mkfs_works :
      (s : S)
      → IsPartitioned y device partition fs_type args tools s
      → (y.run ("mkfs." <> fs_type) (args ++ (partition ∷ [])) s).0.failure ≡ none

-- A value or an error, and no panic.
abbrev pub IsAnswer : {A : Type 0} → Result A → Type 0
IsAnswer {A = A} r = ((a : A) × (r ≡ ok a)) ⊎ ((c : Error) × (r ≡ err c))

chosen : (b : Bool) (c : Error) (q : String) → IsAnswer (if b then err c else ok q)
chosen true c q = inr (c, refl)
chosen false c q = inl (q, refl)

sfdisk_output_answered :
    (device text : String) → IsAnswer (sfdisk_output_get_last_partition device text)
unfolding sfdisk_output_get_last_partition
sfdisk_output_answered device text = chosen _ _ _

module _ {S : Type 0} (y : System S) where
  probe_answered :
      (tag value device : String) (s : S)
      → Answers (y.run "blkid" (probe_args tag value device) s).0
      → (y.run "blkid" (probe_args tag value device) s).1 ≡ s
      → (b : Bool) × (probe y tag value device s ≡ (ok b, s))
  unfolding probe
  probe_answered tag value device s (inl fine) same =
      let out = (y.run "blkid" (probe_args tag value device) s).0 in
      (str_eq (trim_space (to_lower out.text)) value, ground (arith, fine, same))
  probe_answered tag value device s (inr (c, f, two)) same = (false, ground (arith, f, two, same))

  ran_fine :
      (cmd : String) (args : List String) (s : S)
      → (y.run cmd args s).0.failure ≡ none
      → run_or_wrap y cmd args s ≡ (ok (y.run cmd args s).0.text, (y.run cmd args s).1)
  ran_fine cmd args s fine = ground (arith, fine)

  -- A listing names a partition or fails; it does not panic.
  listing_answered : (device : String) (s : S) → IsAnswer (get_device_last_partition y device s).0
  unfolding get_device_last_partition
  listing_answered device s = elim (Option-cases (y.run "sfdisk" (list_args device) s).0.failure) [
    | inr (c, f) ↦ inr (wrap c, ground (arith, f))
    | inl fine ↦ elim (sfdisk_output_answered device (y.run "sfdisk" (list_args device) s).0.text) [
      | inl (q, e) ↦ inl (q, ground (arith, fine, e))
      | inr (c, e) ↦ inr (c, ground (arith, fine, e))
    ]
  ]

module _ {S : Type 0} (y : System S) (device partition fs_type : String) (args : List String)
    (tools : Tools y device partition fs_type args)
    (working : Working y device partition fs_type args tools) where
  table_made : (found : Bool) (s : S) → (t : S) × (make_table y device found s ≡ (ok tt, t))
  table_made true s = (s, refl)
  table_made false s = (
    (y.run "parted" (device ∷ "mklabel" ∷ "gpt" ∷ []) s).1,
    rw (ran_fine y "parted" (device ∷ "mklabel" ∷ "gpt" ∷ []) s (working.mklabel_works s)) refl,
  )

  table_created :
      (s : S)
      → str_eq device "" ≡ false
      → (t : S) × (create_partition_table_if_not_exists y device s ≡ (ok tt, t))
  unfolding create_partition_table_if_not_exists has_partition_table
  table_created s named =
      let (found, probed) =
        probe_answered y "PTTYPE" "gpt" device s (working.table_answers s) (tools.table_reads s) in
      let (t, made) = table_made found s in (t, rw (named, probed) made)

  -- A partition is listed, or made and then listed.
  partition_created :
      (s : S)
      → IsProbed y "PTTYPE" "gpt" device s
      → (q : String) × (t : S) × (create_partition_if_not_exists y device s ≡ (ok q, t))
  unfolding create_partition_if_not_exists
  partition_created s table =
      let same = lists_only y device s (tools.list_reads s) in
      elim (listing_answered y device s) [
        | inl (q, e) ↦
            let listed : get_device_last_partition y device s ≡ (ok q, s) = λ i. (e i, same i) in
            (q, s, rw listed refl)
        | inr (c, e) ↦
            let missing : get_device_last_partition y device s ≡ (err c, s) = λ i. (e i, same i) in
            let t = (y.run "parted" (mkpart_args device) s).1 in
            let fine = working.mkpart_works s table in
            let (fine', found) = working.mkpart_lists s fine in
            let listed =
              get_device_last_partition-lists y device t partition (tools.list_reads t) found
                fine' in
            (partition, t, rw (missing, ran_fine y "parted" (mkpart_args device) s fine) listed)
      ]

  filesystem_made :
      (found : Bool) (s : S)
      → IsPartitioned y device partition fs_type args tools s
      → (t : S) × (make_filesystem y partition fs_type args found s ≡ (ok tt, t))
  filesystem_made true s there = (s, refl)
  filesystem_made false s there = (
    (y.run ("mkfs." <> fs_type) (args ++ (partition ∷ [])) s).1,
    rw (ran_fine y ("mkfs." <> fs_type) (args ++ (partition ∷ [])) s (working.mkfs_works s there))
        refl,
  )

  filesystem_created :
      (s : S)
      → str_eq partition "" ≡ false
      → IsPartitioned y device partition fs_type args tools s
      → (t : S) × (create_filesystem_if_not_exists y partition fs_type args s ≡ (ok tt, t))
  unfolding create_filesystem_if_not_exists filesystem_exists
  filesystem_created s named there =
      let (found, probed) =
        probe_answered y "TYPE" fs_type partition s (working.type_answers s) (tools.type_reads s) in
      let (t, made) = filesystem_made found s there in (t, rw (named, probed) made)

  disk_formatted :
      (s : S)
      → str_eq device "" ≡ false
      → str_eq partition "" ≡ false
      → (t : S) × (format_disk y device fs_type args s ≡ (ok tt, t))
  disk_formatted s named part_named =
      let (t, e1) = table_created s named in
      let table = created_table y device partition fs_type args tools s t e1 in
      let (q, u, e2) = partition_created t table in
      let (same, there) = created_partition y device partition fs_type args tools t u q table e2 in
      let (v, e3) = filesystem_created u part_named there in
      let e2' : create_partition_if_not_exists y device t ≡ (ok partition, u) =
        e2 ∙ ap (λ z. (ok z, u)) same in
      (v, rw (e1, e2', e3) refl)

-- Where the tools work, a request to format that passes the checks succeeds from every state of the
-- disk, in particular from whatever an earlier attempt has left behind: without a table, with a table
-- and no partition, with a partition and no filesystem.
pub format_volume_succeeds :
    {S : Type 0} (y : System S) (types : List String) (source fs_type partition : String)
    (args : List String) (tools : Tools y source partition (to_lower fs_type) args)
    → Working y source partition (to_lower fs_type) args tools
    → str_eq fs_type "" ≡ false
    → str_eq source "" ≡ false
    → str_eq partition "" ≡ false
    → is_supported_filesystem types (to_lower fs_type) ≡ true
    → (s : S) → (t : S) × (format_volume y types source fs_type args s ≡ (ok tt, t))
unfolding format_volume
format_volume_succeeds y types source fs_type partition args tools working typed named part_named
      fine s =
    let (t, e) =
      disk_formatted y source partition (to_lower fs_type) args tools working s named part_named in
    let passes : format_volume y types source fs_type args s
        ≡ format_disk y source (to_lower fs_type) args s =
      rw (typed, named, fine) in
    (t, passes ∙ e)
