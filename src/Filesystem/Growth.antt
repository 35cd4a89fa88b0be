-- ===== src/Filesystem/Growth.antt =====
-- What a volume that was resized has gone through (internal/filesystem/linux_filesystem.go).
use upcloud_csi.Base.{
  ◌≡◌, ap, ◌∙◌, none, some, Option-cases, Bool, true, false, ◌||◌, Bool-cases, ◌⊎◌, inl, inr, List,
  [], ◌∷◌, String, str_eq, if◌then◌else◌,
}
use upcloud_csi.Go.{ok, Error, plain, pure, raise, wrap, map_error, ◌>>=◌}
use upcloud_csi.Go.Text.{trim_space, to_lower, contains}
use upcloud_csi.Go.Inversion.{bind-eq-ok, map_error-eq-ok}
use upcloud_csi.Filesystem.System.{System, Output, run_command, run_or_wrap}
use upcloud_csi.Filesystem.Tools.{ran}
use upcloud_csi.Filesystem.Probes.{get_device_last_partition}
use upcloud_csi.Filesystem.Resize.{
  resize_partition, detect_filesystem_type, resize_filesystem, resize_ext_filesystem,
  resize_xfs_filesystem, detect_args, resize_listed, resize_volume, extract_partition_number,
}

abbrev pub is_ext : String → Bool
is_ext fs_type = str_eq fs_type "ext2" || str_eq fs_type "ext3" || str_eq fs_type "ext4"

-- The command has run and has not failed.
abbrev pub HasRun : {S : Type 0} → System S → String → List String → S → S → Type 0
HasRun y cmd args s s' = (text : String) × (run_command y cmd args s ≡ (ok text, s'))

-- growpart has run on the partition of that number of the device: it has not failed, or it has said
-- that there is no change to make.
abbrev pub IsWidened : {S : Type 0} → System S → String → String → S → S → Type 0
IsWidened y device part_num s s' =
    (out : Output) × (y.run "growpart" (device ∷ part_num ∷ []) s ≡ (out, s'))
    × ((out.failure ≡ none)
        ⊎ ((e : Error) × (out.failure ≡ some e) × (contains out.text "NOCHANGE" ≡ true)))

-- blkid has probed the partition and named the type, which is taken without spaces around it and in
-- small letters.
abbrev pub IsDetected : {S : Type 0} → System S → String → String → S → S → Type 0
IsDetected y partition fs_type s s' =
    (text : String) × (run_command y "blkid"
        ("--probe" ∷ "--output" ∷ "value" ∷ "--match-tag" ∷ "TYPE" ∷ partition ∷ []) s
      ≡ (ok text, s'))
    × (str_eq (trim_space text) "" ≡ false)
    × (fs_type ≡ to_lower (trim_space text))

-- The filesystem was grown by the tool of its type.
abbrev pub IsGrown : {S : Type 0} → System S → String → String → String → S → S → Type 0
IsGrown y fs_type partition volume_path s s' =
    ((is_ext fs_type ≡ true) × HasRun y "resize2fs" (partition ∷ []) s s')
    ⊎ ((str_eq fs_type "xfs" ≡ true) × HasRun y "xfs_growfs" (volume_path ∷ []) s s')

-- The steps of a resize: the last partition of the device was found, and has a number; the partition
-- of that number was grown, or filled the disk already; the type of its filesystem was detected; and
-- the tool of that type, resize2fs on the partition for ext2, ext3 and ext4, xfs_growfs on the volume
-- path for xfs, has run without a failure.
abbrev pub IsResized : {S : Type 0} → System S → String → String → S → S → Type 0
IsResized {S = S} y source volume_path s s' =
    (partition : String) × (fs_type : String) × (listed : S) × (grown : S) × (detected : S)
    × (get_device_last_partition y source s ≡ (ok partition, listed))
    × (str_eq (extract_partition_number partition) "" ≡ false)
    × IsWidened y source (extract_partition_number partition) listed grown
    × IsDetected y partition fs_type grown detected
    × IsGrown y fs_type partition volume_path detected s'

module _ {S : Type 0} (y : System S) where
  resize_filesystem-IsGrown :
      (fs_type partition volume_path : String) (s s' : S)
      → resize_filesystem y fs_type partition volume_path s ≡ (ok tt, s')
      → IsGrown y fs_type partition volume_path s s'
  unfolding resize_filesystem resize_ext_filesystem resize_xfs_filesystem
  resize_filesystem-IsGrown fs_type partition volume_path s s' e =
      elim (Bool-cases (is_ext fs_type)) [
        | inl ext ↦ inl (
          ext,
          ran y "resize2fs" (partition ∷ []) s s'
              (map_error-eq-ok wrap (resize_ext_filesystem y partition) s s' tt (rw ext at e)),
        )
        | inr other ↦ elim (Bool-cases (str_eq fs_type "xfs")) [
          | inl xfs ↦ inr (
            xfs,
            ran y "xfs_growfs" (volume_path ∷ []) s s' (
                map_error-eq-ok wrap (resize_xfs_filesystem y volume_path) s s' tt
                  (rw (other, xfs) at e)),
          )
          | inr none' ↦ absurd (cc (rw (other, none') at e))
        ]
      ]

  resize_partition-IsWidened :
      (device part_num : String) (s s' : S)
      → resize_partition y device part_num s ≡ (ok tt, s')
      → IsWidened y device part_num s s'
  unfolding resize_partition
  resize_partition-IsWidened device part_num s s' e =
      let (out, t) = y.run "growpart" (device ∷ part_num ∷ []) s in
      elim (Option-cases out.failure) [
        | inl fine ↦
            (out, ap (λ z. (out, z)) (ap (λ z. z.1) (rw (resize_partition, fine) at e)), inl fine)
        | inr (x, failed) ↦ elim (Bool-cases (contains out.text "NOCHANGE")) [
          | inl full ↦ (
            out,
            ap (λ z. (out, z)) (ap (λ z. z.1) (rw (resize_partition, failed, full) at e)),
            inr (x, failed, full),
          )
          | inr other ↦ absurd (cc (rw (resize_partition, failed, other) at e))
        ]
      ]

  detect_filesystem_type-IsDetected :
      (partition fs_type : String) (s s' : S)
      → detect_filesystem_type y partition s ≡ (ok fs_type, s')
      → IsDetected y partition fs_type s s'
  unfolding detect_filesystem_type
  detect_filesystem_type-IsDetected partition fs_type s s' e =
      let (text, t, e1, r) =
        bind-eq-ok (run_or_wrap y "blkid" (detect_args partition))
          (λ output.
            if str_eq (trim_space output) ""
            then raise (plain "no filesystem detected")
            else pure (to_lower (trim_space output)))
          s s' fs_type e in
      let ran' = map_error-eq-ok wrap (run_command y "blkid" (detect_args partition)) s t text e1 in
      elim (Bool-cases (str_eq (trim_space text) "")) [
        | inl none' ↦ absurd (cc (rw none' at r))
        | inr named ↦
            let r' : (ok (to_lower (trim_space text)), t) ≡ (ok fs_type, s') = rw named at r in
            (text, ran' ∙ ap (λ z. (ok text, z)) (ap (λ z. z.1) r'), named, cc r')
      ]

  listed_steps :
      (source volume_path partition : String) (s s' : S)
      → resize_listed y source volume_path partition s ≡ (ok tt, s')
      → (fs_type : String) × (grown : S) × (detected : S) × (str_eq
            (extract_partition_number partition)
            ""
          ≡ false)
        × IsWidened y source (extract_partition_number partition) s grown
        × IsDetected y partition fs_type grown detected
        × IsGrown y fs_type partition volume_path detected s'
  unfolding resize_listed
  listed_steps source volume_path partition s s' e =
      elim (Bool-cases (str_eq (extract_partition_number partition) "")) [
        | inl none' ↦ absurd (cc (rw none' at e))
        | inr some' ↦
            let grow = resize_partition y source (extract_partition_number partition) in
            let (_, grown, e1, r1) =
              bind-eq-ok (map_error wrap grow)
                (λ z. map_error wrap (detect_filesystem_type y partition) >>= λ t.
                  resize_filesystem y t partition volume_path)
                s s' tt (rw some' at e) in
            let (fs_type, detected, e2, r2) =
              bind-eq-ok (map_error wrap (detect_filesystem_type y partition))
                (λ t. resize_filesystem y t partition volume_path) grown s' tt r1 in
            (
              fs_type,
              grown,
              detected,
              some',
              resize_partition-IsWidened source (extract_partition_number partition) s grown
                  (map_error-eq-ok wrap grow s grown tt e1),
              detect_filesystem_type-IsDetected partition fs_type grown detected (
                  map_error-eq-ok wrap (detect_filesystem_type y partition) grown detected fs_type
                    e2),
              resize_filesystem-IsGrown fs_type partition volume_path detected s' r2,
            )
      ]

  -- A volume that was resized went through the steps, in their order.
  pub resize_volume_steps :
      (source volume_path : String) (s s' : S)
      → resize_volume y source volume_path s ≡ (ok tt, s')
      → IsResized y source volume_path s s'
  unfolding resize_volume
  resize_volume_steps source volume_path s s' e =
      let (partition, listed, e1, rest) =
        bind-eq-ok (map_error wrap (get_device_last_partition y source))
          (resize_listed y source volume_path) s s' tt e in
      let (fs_type, grown, detected, a, b, c, d) =
        listed_steps source volume_path partition listed s' rest in
      (
        partition,
        fs_type,
        listed,
        grown,
        detected,
        map_error-eq-ok wrap (get_device_last_partition y source) s listed partition e1,
        a,
        b,
        c,
        d,
      )
