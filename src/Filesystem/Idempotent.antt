-- ===== src/Filesystem/Idempotent.antt =====
-- Formatting a disk that has been formatted (internal/filesystem/linux_filesystem.go).
use upcloud_csi.Base.{
  ◌≡◌, refl, sym, ap, subst, ◌∙◌, Bool, true, false, none, Bool-cases, inl, inr, List, [], ◌∷◌,
  ◌++◌, String, ◌<>◌, str_eq,
}
use upcloud_csi.Go.{ok, ◌>>=◌}
use upcloud_csi.Go.Inversion.{bind-eq-ok}
use upcloud_csi.Go.Text.{to_lower}
use upcloud_csi.Filesystem.System.{System, Output}
use upcloud_csi.Filesystem.Disks.{sfdisk_output_get_last_partition}
use upcloud_csi.Filesystem.Probes.{
  probe, has_partition_table, filesystem_exists, create_partition_table_if_not_exists,
  create_partition_if_not_exists, create_filesystem_if_not_exists, is_supported_filesystem,
  format_volume, make_filesystem, format_disk,
}
use upcloud_csi.Filesystem.Tools.{
  IsProbed, Tools, probe-of-IsProbed, IsProbed-of-probe, ran, probe-state,
  get_device_last_partition-reads, get_device_last_partition-lists,
}
use upcloud_csi.Filesystem.Partitioned.{IsPartitioned, created_table, created_partition}

module _ {S : Type 0} (y : System S) (device partition fs_type : String) (args : List String)
    (tools : Tools y device partition fs_type args) where
  abbrev pub IsFormatted : S → Type 0
  IsFormatted s =
      IsPartitioned y device partition fs_type args tools s × IsProbed y "TYPE" fs_type partition s

  made_filesystem :
      (found : Bool) (s s' : S)
      → IsPartitioned y device partition fs_type args tools s
      → (found ≡ true → IsProbed y "TYPE" fs_type partition s)
      → make_filesystem y partition fs_type args found s ≡ (ok tt, s')
      → IsFormatted s'
  made_filesystem true s s' there h e = subst IsFormatted (ap (λ z. z.1) e) (there, h refl)
  made_filesystem false s s' there h e =
      let (text, f) = ran y ("mkfs." <> fs_type) (args ++ (partition ∷ [])) s s' e in
      let same = tools.mkfs_lists s s' text f in
      let (_, found, fine) =
        get_device_last_partition-reads y device s s partition (tools.list_reads s) there.1 in
      let listing =
        get_device_last_partition-lists y device s' partition (tools.list_reads s')
          (subst (λ (o : Output). sfdisk_output_get_last_partition device o.text ≡ ok partition)
            (sym same) found)
          (subst (λ (o : Output). o.failure ≡ none) (sym same) fine) in
      ((tools.mkfs_keeps s s' text f there.0, listing), tools.mkfs_makes s s' text f)

  probed_filesystem :
      (found : Bool) (s t : S)
      → filesystem_exists y partition fs_type s ≡ (ok found, t)
      → (s ≡ t)
        × (str_eq partition "" ≡ false)
        × (found ≡ true → IsProbed y "TYPE" fs_type partition s)
  unfolding filesystem_exists
  probed_filesystem found s t e = elim (Bool-cases (str_eq partition "")) [
    | inl empty ↦ absurd (cc (rw empty at e))
    | inr full ↦
        let probed : probe y "TYPE" fs_type partition s ≡ (ok found, t) = rw full at e in
        (
          sym (probe-state y "TYPE" fs_type partition s (tools.type_reads s))
              ∙ ap (λ z. z.1) probed,
          full,
          λ h.
              IsProbed-of-probe y "TYPE" fs_type partition s t
                (subst (λ z. probe y "TYPE" fs_type partition s ≡ (ok z, t)) h probed),
        )
  ]

  created_filesystem :
      (s s' : S)
      → IsPartitioned y device partition fs_type args tools s
      → create_filesystem_if_not_exists y partition fs_type args s ≡ (ok tt, s')
      → (str_eq partition "" ≡ false) × IsFormatted s'
  unfolding create_filesystem_if_not_exists
  created_filesystem s s' there e =
      let (found, t, e1, e2) =
        bind-eq-ok (filesystem_exists y partition fs_type)
          (make_filesystem y partition fs_type args) s s' tt e in
      let (same, full, h) = probed_filesystem found s t e1 in
      (
        full,
        made_filesystem found t s'
            (subst (IsPartitioned y device partition fs_type args tools) same there)
            (λ yes'. subst (IsProbed y "TYPE" fs_type partition) same (h yes')) e2,
      )

  -- A disk that was formatted is found so, step by step.
  pub formatted_again :
      (s : S)
      → str_eq device "" ≡ false
      → str_eq partition "" ≡ false
      → IsFormatted s
      → format_disk y device fs_type args s ≡ (ok tt, s)
  unfolding create_partition_table_if_not_exists has_partition_table create_partition_if_not_exists
      create_filesystem_if_not_exists filesystem_exists
  formatted_again s named there ((table, listing), made) =
      let a = probe-of-IsProbed y "PTTYPE" "gpt" device s table (tools.table_reads s) in
      let b = probe-of-IsProbed y "TYPE" fs_type partition s made (tools.type_reads s) in
      rw (named, a, listing, there, b)

  pub format_disk-IsFormatted :
      (s s' : S)
      → format_disk y device fs_type args s ≡ (ok tt, s')
      → (str_eq partition "" ≡ false) × IsFormatted s'
  format_disk-IsFormatted s s' e =
      let (_, t, e1, rest) =
        bind-eq-ok (create_partition_table_if_not_exists y device)
          (λ z. create_partition_if_not_exists y device >>= λ p.
            create_filesystem_if_not_exists y p fs_type args)
          s s' tt e in
      let (q, t', e2, e3) =
        bind-eq-ok (create_partition_if_not_exists y device)
          (λ p. create_filesystem_if_not_exists y p fs_type args) t s' tt rest in
      let (p, there) =
        created_partition y device partition fs_type args tools t t' q
          (created_table y device partition fs_type args tools s t e1) e2 in
      created_filesystem t' s' there
        (subst (λ z. create_filesystem_if_not_exists y z fs_type args t' ≡ (ok tt, s')) p e3)

-- The first argument's checks let the request through to the disk.
format-eq-ok :
    {S : Type 0} (y : System S) (types : List String) (source fs_type : String) (args : List String)
    (s s' : S)
    → format_volume y types source fs_type args s ≡ (ok tt, s')
    → (str_eq source "" ≡ false)
      × (format_disk y source (to_lower fs_type) args s ≡ (ok tt, s'))
      × ((t : S)
          → format_volume y types source fs_type args t
            ≡ format_disk y source (to_lower fs_type) args t)
unfolding format_volume
format-eq-ok {S = S} y types source fs_type args s s' e = elim (Bool-cases (str_eq fs_type "")) [
  | inl none' ↦ absurd (cc (rw none' at e))
  | inr typed ↦ elim (Bool-cases (str_eq source "")) [
    | inl none' ↦ absurd (cc (rw (typed, none') at e))
    | inr named ↦ elim (Bool-cases (is_supported_filesystem types (to_lower fs_type))) [
      | inl fine ↦
          let again : (t : S)
              → format_volume y types source fs_type args t
                ≡ format_disk y source (to_lower fs_type) args t =
            λ t. rw (typed, named, fine) in
          (named, sym (again s) ∙ e, again)
      | inr none' ↦ absurd (cc (rw (typed, named, none') at e))
    ]
  ]
]

-- Where the tools keep their promises, a disk that was formatted can be formatted again: that call
-- succeeds and leaves the host exactly as it is, so nothing on the disk is overwritten.
pub format_volume_idempotent :
    {S : Type 0} (y : System S) (types : List String) (source fs_type partition : String)
    (args : List String) (s s' : S)
    → Tools y source partition (to_lower fs_type) args
    → format_volume y types source fs_type args s ≡ (ok tt, s')
    → format_volume y types source fs_type args s' ≡ (ok tt, s')
format_volume_idempotent y types source fs_type partition args s s' tools e =
    let (named, done, again) = format-eq-ok y types source fs_type args s s' e in
    let (there, formatted) =
      format_disk-IsFormatted y source partition (to_lower fs_type) args tools s s' done in
    again s'
    ∙ formatted_again y source partition (to_lower fs_type) args tools s' named there formatted
