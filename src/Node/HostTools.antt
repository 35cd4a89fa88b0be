-- ===== src/Node/HostTools.antt =====
-- What the Linux filesystem (internal/filesystem/linux_filesystem.go, linux_utils.go) leaves alone of
-- the mounts of its host: finding a device, probing and formatting.
use upcloud_csi.Base.{
  ◌≡◌, refl, ◌∙◌, arith, ℕ, zero, suc, ◌-◌, ◌*◌, ltb, Bool, true, false, Option, none, some,
  Bool-cases, inl, inr, List, [], ◌∷◌, ◌++◌, String, str_eq, ◌<>◌,
}
use upcloud_csi.Go.{Action, Result, ok, err, panic, lift, pure, attempt, ◌>>=◌}
use upcloud_csi.Go.Preserves.{Preserves, bind-Preserves, preserves_rules}
use upcloud_csi.Filesystem.{MountInfo}
use upcloud_csi.Filesystem.System.{System, MountEntry, run_command, run_no_output}
use upcloud_csi.Filesystem.Disks.{
  second, udev_disk_timeout, poll_rounds, udev_wait_disk_to_settle, read_link, after_read,
  poll_link, abs_path, get_block_device_by_disk_id,
}
use upcloud_csi.Filesystem.Probes.{
  probe, has_partition_table, filesystem_exists, create_partition_table_if_not_exists,
  create_partition_if_not_exists, create_filesystem_if_not_exists, get_device_last_partition,
  format_volume,
}
use upcloud_csi.Filesystem.Mounts.{entries_of, findmnt_args, find_mount, device_by_id}
use upcloud_csi.Node.HostStage.{info_columns}

-- What the tools and the system calls promise to leave alone: only mount and umount change the table
-- of mounts, at one path each; and what findmnt lists is mounted.
pub record TableFrame {S : Type 0} (y : System S) (mounted : S → String → Bool) : Type 0 where
  pub finds : (q : String) (tool : String) → Preserves (λ s. mounted s q) (y.look_path tool)
  pub settles :
      (q cmd path : String) (s t : S)
      → y.look_path "udevadm" s ≡ (ok cmd, t)
      → mounted
          (run_command y cmd ("settle" ∷ "--timeout=20" ∷ ("--exit-if-exists=" <> path) ∷ []) t).1
          q
        ≡ mounted t q
  pub reads_link : (q ln : String) → Preserves (λ s. mounted s q) (y.os.readlink ln)
  pub sleeps : (q : String) (d : ℕ) (s : S) → mounted (y.sleep d s) q ≡ mounted s q
  pub asks_dir : (q : String) → Preserves (λ s. mounted s q) y.getwd
  pub looks : (q path : String) → Preserves (λ s. mounted s q) (y.os.stat path)
  pub removes : (q path : String) → Preserves (λ s. mounted s q) (y.os.remove path)
  pub makes_dir : (q path : String) → Preserves (λ s. mounted s q) (y.os.mkdir_all path)
  pub creates : (q path : String) → Preserves (λ s. mounted s q) (y.os.create path)
  pub closes : (q path : String) → Preserves (λ s. mounted s q) (y.os.close path)
  pub probes :
      (q : String) (args : List String) → Preserves (λ s. mounted s q) (run_command y "blkid" args)
  pub parts :
      (q : String) (args : List String) → Preserves (λ s. mounted s q) (run_command y "parted" args)
  pub lists :
      (q : String) (args : List String) → Preserves (λ s. mounted s q) (run_command y "sfdisk" args)
  pub makes_filesystem :
      (q fs_type : String) (args : List String)
      → Preserves (λ s. mounted s q) (run_command y ("mkfs." <> fs_type) args)
  pub mounts_one :
      (q source path : String) (args : List String)
      → str_eq q path ≡ false
      → Preserves (λ s. mounted s q) (run_command y "mount" (args ++ (source ∷ path ∷ [])))
  pub unmounts_one :
      (q path : String)
      → str_eq q path ≡ false
      → Preserves (λ s. mounted s q) (run_command y "umount" (path ∷ []))
  pub reports :
      (q path : String) (s : S)
      → mounted (y.run "findmnt" (findmnt_args info_columns path) s).1 q ≡ mounted s q
  pub listed :
      (path : String) (s : S) (entries : List MountEntry) (info : MountInfo)
      → entries_of y.decode (y.run "findmnt" (findmnt_args info_columns path) s).0
        ≡ ok (some entries)
      → find_mount path entries ≡ ok info
      → mounted s path ≡ true

module _ {S : Type 0} (y : System S) (mounted : S → String → Bool) (frame : TableFrame y mounted)
    (q : String) where
  abbrev Still : {A : Type 0} → Action S A → Type 0
  Still m = Preserves (λ s. mounted s q) m

  abbrev settle_with : String → Option String → Action S (Unit {0})
  settle_with path udevadm = elim udevadm [
    | none ↦ pure tt
    | some cmd ↦
        run_no_output y cmd ("settle" ∷ "--timeout=20" ∷ ("--exit-if-exists=" <> path) ∷ [])
  ]

  -- What `udevadm` is found as is run.
  settle_found :
      (path : String) (r : Result String) (s t : S)
      → y.look_path "udevadm" s ≡ (r, t)
      → mounted t q ≡ mounted s q
      → mounted ((attempt (lift r) >>= settle_with path) t).1 q ≡ mounted s q
  settle_found path (ok cmd) s t found same =
      ground (arith, frame.settles q cmd path s t found, same)
  settle_found path (err e) s t found same = same
  settle_found path panic s t found same = same

  settle-Still : (path : String) → Still (udev_wait_disk_to_settle y path)
  unfolding udev_wait_disk_to_settle
  settle-Still path = record {
    at = λ s.
        settle_found path (y.look_path "udevadm" s).0 s (y.look_path "udevadm" s).1 refl
          ((frame.finds q "udevadm").at s);
  }

  probe-Still : (tag value device : String) → Still (probe y tag value device)
  unfolding probe
  probe-Still tag value device = search (preserves_rules, frame.probes) depth 12

  pub listing-Still : (device : String) → Still (get_device_last_partition y device)
  unfolding get_device_last_partition
  listing-Still device = search (preserves_rules, frame.lists) depth 12

  table-Still : (device : String) → Still (create_partition_table_if_not_exists y device)
  unfolding create_partition_table_if_not_exists has_partition_table
  table-Still device = search (preserves_rules, probe-Still, frame.parts) depth 12

  partition-Still : (device : String) → Still (create_partition_if_not_exists y device)
  unfolding create_partition_if_not_exists
  partition-Still device = search (preserves_rules, listing-Still, frame.parts) depth 12

  filesystem-Still :
      (partition fs_type : String) (args : List String)
      → Still (create_filesystem_if_not_exists y partition fs_type args)
  unfolding create_filesystem_if_not_exists filesystem_exists
  filesystem-Still partition fs_type args =
      search (preserves_rules, probe-Still, frame.makes_filesystem) depth 12

  pub format-Still :
      (types : List String) (source fs_type : String) (args : List String)
      → Still (format_volume y types source fs_type args)
  unfolding format_volume
  format-Still types source fs_type args =
      search (preserves_rules, table-Still, partition-Still, filesystem-Still) depth 14

  round-Still :
      (rest : Action S String) → Still rest → (dev : String) → Still (after_read y rest dev)
  round-Still rest hr dev = record {
    at = λ s. elim (Bool-cases (str_eq dev "")) [
      | inl blank ↦ rw blank (hr.at (y.sleep (2 * second) s) ∙ frame.sleeps q (2 * second) s)
      | inr found ↦ rw found refl
    ];
  }

  link-Still : (ln : String) → Still (read_link y ln)
  link-Still ln = search (preserves_rules, frame.reads_link) depth 8

  poll-Still : (fuel : ℕ) (ln : String) (start : ℕ) → Still (poll_link y fuel ln start)
  unfolding poll_link
  poll-Still zero ln start = record { at = λ s. refl }
  poll-Still (suc fuel) ln start = record {
    at = λ s. elim (Bool-cases (ltb (y.now s - start) (second * udev_disk_timeout))) [
      | inl early ↦ rw early (
          (bind-Preserves (read_link y ln) (after_read y (poll_link y fuel ln start))
              (link-Still ln)
              (round-Still (poll_link y fuel ln start) (poll-Still fuel ln start))).at
            s)
      | inr over ↦ rw over refl
    ];
  }

  poll-now-Still : (ln : String) → Still (λ s. poll_link y (poll_rounds y) ln (y.now s) s)
  poll-now-Still ln = record { at = λ s. (poll-Still (poll_rounds y) ln (y.now s)).at s }

  abs-Still : (ln dev : String) → Still (abs_path y ln dev)
  unfolding abs_path
  abs-Still ln dev = search (preserves_rules, frame.asks_dir) depth 10

  pub device-Still : (id : String) → Still (device_by_id y id)
  unfolding device_by_id get_block_device_by_disk_id
  device-Still id =
      search (preserves_rules, settle-Still, poll-now-Still, abs-Still, frame.looks) depth 16
