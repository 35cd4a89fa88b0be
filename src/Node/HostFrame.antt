-- ===== src/Node/HostFrame.antt =====
-- The node server over the Linux filesystem (internal/node/node.go,
-- internal/filesystem/linux_filesystem.go): its calls change only the mounts that they are for.
use upcloud_csi.Base.{
  ◌≡◌, ap, arith, if◌then◌else◌, Bool, true, false, Option, none, some, Bool-cases, inl, inr, List,
  [], ◌∷◌, ◌++◌, String, str_eq,
}
use upcloud_csi.Go.{Action, for_each, ok, sentinel, plain, not_mounted, pure, raise, ◌>>=◌}
use upcloud_csi.Go.Preserves.{
  Preserves, pure-Preserves, raise-Preserves, lift-Preserves, if-Preserves, bind-Preserves,
  preserves_rules,
}
use upcloud_csi.Go.Inversion.{bind-eq-ok}
use upcloud_csi.Filesystem.{MountInfo}
use upcloud_csi.Filesystem.System.{System, MountEntry, run_command, run_no_output}
use upcloud_csi.Filesystem.Disks.{create_block_device}
use upcloud_csi.Filesystem.Mounts.{
  entries_of, findmnt_args, findmnt, find_mount, read_mount, mount_info_of, mount_point,
  mount_options, mount_source, stat_there, unmount_target,
}
use upcloud_csi.Filesystem.Linux.{LinuxFilesystem, linux_filesystem}
use upcloud_csi.Node.{Node}
use upcloud_csi.Node.HostTools.{TableFrame, device-Still, listing-Still, format-Still}
use upcloud_csi.Node.Frame.{HostFrame}
use upcloud_csi.Node.Host.{over_linux, MountTable, linux_filesystem-HostMounts}
use upcloud_csi.Node.Lifecycle.{Call, call, replay, calls_refine}
use upcloud_csi.Node.HostStage.{info_columns}

module _ {S : Type 0} (y : System S) (mounted : S → String → Bool) (frame : TableFrame y mounted)
    (q : String) where
  abbrev Still : {A : Type 0} → Action S A → Type 0
  Still m = Preserves (λ s. mounted s q) m

  point-Still : (path fs_type : String) → Still (mount_point y path fs_type)
  unfolding mount_point create_block_device
  point-Still path fs_type =
      search (preserves_rules, frame.makes_dir, frame.creates, frame.closes) depth 12

  mount-Still :
      (source path fs_type : String) (options : List String)
      → str_eq q path ≡ false
      → Still (mount_source y source path fs_type options)
  unfolding mount_source
  mount-Still source path fs_type options other =
      search
        (
          preserves_rules,
          point-Still,
          λ (args : List String).
              frame.mounts_one q source path (args ++ mount_options y options) other,
        )
        depth 14

  there-Still : (path : String) → Still (stat_there y path)
  there-Still path = search (preserves_rules, frame.looks) depth 10

  unmount-Still : (path : String) → str_eq q path ≡ false → Still (unmount_target y path)
  unfolding unmount_target
  unmount-Still path other =
      if-Preserves (str_eq path "")
        (raise (plain "target is not specified for unmounting the volume"))
        (stat_there y path >>= λ there.
          if there then run_no_output y "umount" (path ∷ []) else pure tt)
        (raise-Preserves (plain "target is not specified for unmounting the volume"))
        (bind-Preserves (stat_there y path)
          (λ there. if there then run_no_output y "umount" (path ∷ []) else pure tt)
          (there-Still path)
          (λ there.
            if-Preserves there (run_no_output y "umount" (path ∷ [])) (pure tt)
              (bind-Preserves (run_command y "umount" (path ∷ [])) (λ text. pure tt)
                (frame.unmounts_one q path other) (λ text. pure-Preserves tt))
              (pure-Preserves tt)))

  read-Still : (path : String) (o : Option (List MountEntry)) → Still (read_mount y path o)
  read-Still path none = raise-Preserves (sentinel not_mounted)
  read-Still path (some entries) = lift-Preserves (find_mount path entries)

  info-Still : (path : String) → Still (mount_info_of y path)
  unfolding mount_info_of findmnt
  info-Still path =
      if-Preserves (str_eq path "") (raise (plain "target is not specified for checking the mount"))
        (findmnt y info_columns path >>= read_mount y path)
        (raise-Preserves (plain "target is not specified for checking the mount"))
        (bind-Preserves (findmnt y info_columns path) (read_mount y path)
          (record { at = frame.reports q path }) (read-Still path))

module _ {S : Type 0} (y : System S) (mounted : S → String → Bool)
    (frame : TableFrame y mounted) where
  found_listed :
      (path : String) (s : S) (o : Option (List MountEntry)) (i : MountInfo) (u t : S)
      → entries_of y.decode (y.run "findmnt" (findmnt_args info_columns path) s).0 ≡ ok o
      → read_mount y path o u ≡ (ok i, t)
      → mounted s path ≡ true
  found_listed path s none i u t read found = absurd (cc found)
  found_listed path s (some entries) i u t read found =
      frame.listed path s entries i read (ap (λ z. z.0) found)

  -- A mount whose information is read was there when findmnt was asked.
  informed :
      (path : String) (info : MountInfo) (s s' : S)
      → (mount_info_of y path >>= λ i. pure (some i)) s ≡ (ok (some info), s')
      → mounted s path ≡ true
  unfolding mount_info_of findmnt
  informed path info s s' e =
      let (i, t, e1, r) =
        bind-eq-ok (mount_info_of y path) (λ i. pure (some i)) s s' (some info) e in
      elim (Bool-cases (str_eq path "")) [
        | inl blank ↦ absurd (ground (arith, blank, e1))
        | inr full ↦
            let (o, u, e2, found) =
              bind-eq-ok (findmnt y info_columns path) (read_mount y path) s t i (rw full at e1) in
            found_listed path s o i u t (ap (λ z. z.0) e2) found
      ]

-- The Linux filesystem leaves alone what the node server relies on: where each tool and each system
-- call of the host changes no mount but the one it is run for, and findmnt lists only what is mounted,
-- a node server over it is one whose host does.
linux_filesystem-HostFrame :
    {S : Type 0} (m : LinuxFilesystem S) (n : Node S) (mounted : S → String → Bool)
    → TableFrame m.system mounted
    → HostFrame (over_linux m n) mounted
unfolding linux_filesystem
linux_filesystem-HostFrame m n mounted frame = record {
  finds = λ id q. device-Still m.system mounted frame q id;
  formats = λ source fs_type args q.
      format-Still m.system mounted frame q m.filesystem_types source fs_type args;
  partitions = λ source q. listing-Still m.system mounted frame q source;
  reads = λ path q.
      bind-Preserves (mount_info_of m.system path) (λ info. pure (some info))
        (info-Still m.system mounted frame q path) (λ info. pure-Preserves (some info));
  informs = informed m.system mounted frame;
  mount_others = λ source path fs_type options q other.
      mount-Still m.system mounted frame q source path fs_type options other;
  unmount_others = λ path q other. unmount-Still m.system mounted frame q path other;
  looks = λ path q. frame.looks q path;
  removes = λ path q. frame.removes q path;
}

-- A node server over the Linux filesystem does what its calls promise: where the tools and the system
-- calls of the host keep their promises about its table of mounts and change no mount but the one they
-- are run for, any sequence of stagings, publications and their reversals that all succeed leaves
-- mounted exactly the paths that the sequence says.
pub linux_calls_refine :
    {S : Type 0} (m : LinuxFilesystem S) (n : Node S) (mounted : S → String → Bool)
    → MountTable m.system mounted
    → TableFrame m.system mounted
    → (cs : List Call) (s s' : S) → for_each (call (over_linux m n)) cs s ≡ (ok tt, s')
    → (q : String) → mounted s' q ≡ replay cs (mounted s) q
linux_calls_refine m n mounted table frame =
    calls_refine (over_linux m n) mounted (linux_filesystem-HostMounts m n mounted table)
      (linux_filesystem-HostFrame m n mounted frame)
