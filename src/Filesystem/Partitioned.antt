-- ===== src/Filesystem/Partitioned.antt =====
-- The partition table and the partition that formatting makes or finds
-- (internal/filesystem/linux_filesystem.go).
use upcloud_csi.Base.{
  ◌≡◌, refl, sym, ap, subst, ◌∙◌, Bool, true, false, Bool-cases, inl, inr, List, [], ◌∷◌, String,
  str_eq,
}
use upcloud_csi.Go.{ok, wrap}
use upcloud_csi.Go.Inversion.{bind-eq-ok, map_error-eq-ok, catch-eq-ok}
use upcloud_csi.Filesystem.System.{System, run_command, run_or_wrap}
use upcloud_csi.Filesystem.Probes.{
  mkpart_args, probe, has_partition_table, get_device_last_partition,
  create_partition_table_if_not_exists, create_partition_if_not_exists, make_table,
}
use upcloud_csi.Filesystem.Tools.{
  IsProbed, Tools, IsProbed-of-probe, ran, probe-state, lists_only, get_device_last_partition-reads,
}

module _ {S : Type 0} (y : System S) (device partition fs_type : String) (args : List String)
    (tools : Tools y device partition fs_type args) where
  -- The table is there and the partition is listed.
  abbrev pub IsPartitioned : S → Type 0
  IsPartitioned s =
      IsProbed y "PTTYPE" "gpt" device s
      × (get_device_last_partition y device s ≡ (ok partition, s))

  made_table :
      (found : Bool) (s s' : S)
      → (found ≡ true → IsProbed y "PTTYPE" "gpt" device s)
      → make_table y device found s ≡ (ok tt, s')
      → IsProbed y "PTTYPE" "gpt" device s'
  made_table true s s' h e = subst (IsProbed y "PTTYPE" "gpt" device) (ap (λ z. z.1) e) (h refl)
  made_table false s s' h e =
      let (text, f) = ran y "parted" (device ∷ "mklabel" ∷ "gpt" ∷ []) s s' e in
      tools.mklabel_makes s s' text f

  probed_table :
      (found : Bool) (s t : S)
      → has_partition_table y device s ≡ (ok found, t)
      → found ≡ true
      → IsProbed y "PTTYPE" "gpt" device t
  unfolding has_partition_table
  probed_table found s t e h = elim (Bool-cases (str_eq device "")) [
    | inl empty ↦ absurd (cc (rw empty at e))
    | inr full ↦
        let probed : probe y "PTTYPE" "gpt" device s ≡ (ok true, t) =
          rw full at (subst (λ z. has_partition_table y device s ≡ (ok z, t)) h e) in
        subst (IsProbed y "PTTYPE" "gpt" device)
          (sym (probe-state y "PTTYPE" "gpt" device s (tools.table_reads s)) ∙ ap (λ z. z.1) probed)
          (IsProbed-of-probe y "PTTYPE" "gpt" device s t probed)
  ]

  pub created_table :
      (s s' : S)
      → create_partition_table_if_not_exists y device s ≡ (ok tt, s')
      → IsProbed y "PTTYPE" "gpt" device s'
  unfolding create_partition_table_if_not_exists
  created_table s s' e =
      let (found, t, e1, e2) =
        bind-eq-ok (has_partition_table y device) (make_table y device) s s' tt e in
      made_table found t s' (probed_table found s t e1) e2

  -- The disk has no other partition, and a listing changes nothing.
  listed :
      (s s' : S) (q : String)
      → get_device_last_partition y device s ≡ (ok q, s')
      → (s ≡ s') × (q ≡ partition)
  listed s s' q e =
      let (same, found, fine) =
        get_device_last_partition-reads y device s s' q (tools.list_reads s) e in
      (same, tools.one_partition s q found)

  listed_there :
      (s s' : S) (q : String)
      → IsProbed y "PTTYPE" "gpt" device s
      → get_device_last_partition y device s ≡ (ok q, s')
      → (q ≡ partition) × IsPartitioned s'
  listed_there s s' q h e =
      let (same, p) = listed s s' q e in
      let e' : get_device_last_partition y device s' ≡ (ok q, s') =
        subst (λ z. get_device_last_partition y device z ≡ (ok q, s')) same e in
      let listing : get_device_last_partition y device s' ≡ (ok partition, s') =
        subst (λ z. get_device_last_partition y device s' ≡ (ok z, s')) p e' in
      (p, (subst (IsProbed y "PTTYPE" "gpt" device) same h, listing))

  pub created_partition :
      (s s' : S) (q : String)
      → IsProbed y "PTTYPE" "gpt" device s
      → create_partition_if_not_exists y device s ≡ (ok q, s')
      → (q ≡ partition) × IsPartitioned s'
  unfolding create_partition_if_not_exists
  created_partition s s' q h e =
      elim (catch-eq-ok (get_device_last_partition y device) _ s s' q e) [
        | inl found ↦ listed_there s s' q h found
        | inr (c, f, made) ↦
            let (text, t, e1, e2) =
              bind-eq-ok (run_or_wrap y "parted" (mkpart_args device))
                (λ z. get_device_last_partition y device) (get_device_last_partition y device s).1
                s' q made in
            listed_there t s' q
              (tools.mkpart_keeps _ t text
                (map_error-eq-ok wrap (run_command y "parted" (mkpart_args device)) _ t text e1)
                (subst (IsProbed y "PTTYPE" "gpt" device)
                  (sym (lists_only y device s (tools.list_reads s))) h))
              e2
      ]
