-- ===== src/Filesystem/Tools.antt =====
-- What the tools that format a disk promise, and what a probe or a listing that succeeded has seen
-- (internal/filesystem/linux_filesystem.go).
use upcloud_csi.Base.{
  ◌≡◌, ap, ◌∙◌, arith, true, none, Bool-cases, Option-cases, eqb_ℤ, pos, inl, inr, List, [], ◌∷◌,
  ◌++◌, String, ◌<>◌, str_eq,
}
use upcloud_csi.Go.{ok, wrap, pure, ◌>>◌}
use upcloud_csi.Go.Inversion.{bind-eq-ok, map_error-eq-ok}
use upcloud_csi.Go.Text.{to_lower, trim_space}
use upcloud_csi.Filesystem.System.{System, run_command, run_or_wrap}
use upcloud_csi.Filesystem.Disks.{sfdisk_output_get_last_partition, cmd_exit_code}
use upcloud_csi.Filesystem.Probes.{
  probe_args, list_args, mkpart_args, probe, get_device_last_partition,
}

-- blkid finds the value of the tag at the device.
abbrev pub IsProbed : {S : Type 0} → System S → String → String → String → S → Type 0
IsProbed y tag value device s =
    let out = (y.run "blkid" (probe_args tag value device) s).0 in
    (out.failure ≡ none) × (str_eq (trim_space (to_lower out.text)) value ≡ true)

-- What the documentation of the tools promises for a disk, its partition, a filesystem type and the
-- arguments of mkfs: probes and listings only read; a table, a filesystem that was made is found; a
-- later step takes nothing of it away; the disk has no other partition.
pub record Tools {S : Type 0} (y : System S) (device partition fs_type : String)
    (args : List String) : Type 0 where
  pub table_reads : (s : S) → (y.run "blkid" (probe_args "PTTYPE" "gpt" device) s).1 ≡ s
  pub type_reads : (s : S) → (y.run "blkid" (probe_args "TYPE" fs_type partition) s).1 ≡ s
  pub list_reads : (s : S) → (y.run "sfdisk" (list_args device) s).1 ≡ s
  pub one_partition :
      (s : S) (q : String)
      → sfdisk_output_get_last_partition device (y.run "sfdisk" (list_args device) s).0.text ≡ ok q
      → q ≡ partition
  pub mklabel_makes :
      (s s' : S) (text : String)
      → run_command y "parted" (device ∷ "mklabel" ∷ "gpt" ∷ []) s ≡ (ok text, s')
      → IsProbed y "PTTYPE" "gpt" device s'
  pub mkpart_keeps :
      (s s' : S) (text : String)
      → run_command y "parted" (mkpart_args device) s ≡ (ok text, s')
      → IsProbed y "PTTYPE" "gpt" device s
      → IsProbed y "PTTYPE" "gpt" device s'
  pub mkfs_makes :
      (s s' : S) (text : String)
      → run_command y ("mkfs." <> fs_type) (args ++ (partition ∷ [])) s ≡ (ok text, s')
      → IsProbed y "TYPE" fs_type partition s'
  pub mkfs_keeps :
      (s s' : S) (text : String)
      → run_command y ("mkfs." <> fs_type) (args ++ (partition ∷ [])) s ≡ (ok text, s')
      → IsProbed y "PTTYPE" "gpt" device s
      → IsProbed y "PTTYPE" "gpt" device s'
  pub mkfs_lists :
      (s s' : S) (text : String)
      → run_command y ("mkfs." <> fs_type) (args ++ (partition ∷ [])) s ≡ (ok text, s')
      → (y.run "sfdisk" (list_args device) s').0 ≡ (y.run "sfdisk" (list_args device) s).0

module _ {S : Type 0} (y : System S) where
  pub probe-of-IsProbed :
      (tag value device : String) (s : S)
      → IsProbed y tag value device s
      → (y.run "blkid" (probe_args tag value device) s).1 ≡ s
      → probe y tag value device s ≡ (ok true, s)
  unfolding probe
  probe-of-IsProbed tag value device s (fine, found) same = ground (arith, fine, found, same)

  pub IsProbed-of-probe :
      (tag value device : String) (s s' : S)
      → probe y tag value device s ≡ (ok true, s')
      → IsProbed y tag value device s
  unfolding probe
  IsProbed-of-probe tag value device s s' e =
      let out = (y.run "blkid" (probe_args tag value device) s).0 in
      elim (Option-cases out.failure) [
        | inl fine ↦ (fine, ground (arith, fine, e))
        | inr (c, f) ↦ elim (Bool-cases (eqb_ℤ (cmd_exit_code c) (pos 2))) [
          | inl two ↦ absurd (ground (arith, f, two, e))
          | inr other ↦ absurd (ground (arith, f, other, e))
        ]
      ]

  -- A command that was run, and has not failed.
  pub ran :
      (cmd : String) (args : List String) (s s' : S)
      → (run_or_wrap y cmd args >> pure tt) s ≡ (ok tt, s')
      → (text : String) × (run_command y cmd args s ≡ (ok text, s'))
  ran cmd args s s' e =
      let (text, t, a, b) = bind-eq-ok (run_or_wrap y cmd args) (λ z. pure tt) s s' tt e in
      (
        text,
        map_error-eq-ok wrap (run_command y cmd args) s s' text
            (a ∙ ap (λ z. (ok text, z)) (ap (λ z. z.1) b)),
      )

  pub probe-state :
      (tag value device : String) (s : S)
      → (y.run "blkid" (probe_args tag value device) s).1 ≡ s
      → (probe y tag value device s).1 ≡ s
  unfolding probe
  probe-state tag value device s same =
      elim (Option-cases (y.run "blkid" (probe_args tag value device) s).0.failure) [
        | inl fine ↦ ground (arith, fine, same)
        | inr (c, f) ↦ elim (Bool-cases (eqb_ℤ (cmd_exit_code c) (pos 2))) [
          | inl two ↦ ground (arith, f, two, same)
          | inr other ↦ ground (arith, f, other, same)
        ]
      ]

  pub lists_only :
      (device : String) (s : S)
      → (y.run "sfdisk" (list_args device) s).1 ≡ s
      → (get_device_last_partition y device s).1 ≡ s
  unfolding get_device_last_partition
  lists_only device s same = elim (Option-cases (y.run "sfdisk" (list_args device) s).0.failure) [
    | inl fine ↦ ground (arith, fine, same)
    | inr (c, f) ↦ ground (arith, f, same)
  ]

  pub get_device_last_partition-reads :
      (device : String) (s s' : S) (q : String)
      → (y.run "sfdisk" (list_args device) s).1 ≡ s
      → get_device_last_partition y device s ≡ (ok q, s')
      → (s ≡ s')
        × (sfdisk_output_get_last_partition device (y.run "sfdisk" (list_args device) s).0.text
            ≡ ok q)
        × ((y.run "sfdisk" (list_args device) s).0.failure ≡ none)
  unfolding get_device_last_partition
  get_device_last_partition-reads device s s' q same e =
      elim (Option-cases (y.run "sfdisk" (list_args device) s).0.failure) [
        | inr (c, f) ↦ absurd (ground (arith, f, e))
        | inl fine ↦ (ground (arith, fine, same, e), ground (arith, fine, same, e), fine)
      ]

  pub get_device_last_partition-lists :
      (device : String) (s : S) (q : String)
      → (y.run "sfdisk" (list_args device) s).1 ≡ s
      → sfdisk_output_get_last_partition device (y.run "sfdisk" (list_args device) s).0.text ≡ ok q
      → (y.run "sfdisk" (list_args device) s).0.failure ≡ none
      → get_device_last_partition y device s ≡ (ok q, s)
  unfolding get_device_last_partition
  get_device_last_partition-lists device s q same e fine = ground (arith, fine, same, e)
