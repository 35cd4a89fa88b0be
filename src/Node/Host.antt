-- ===== src/Node/Host.antt =====
-- The node server over the Linux filesystem (internal/filesystem/linux_filesystem.go): the tools of the
-- host make it a host whose mounts behave.
use upcloud_csi.Base.{
  ◌≡◌, sym, ap, subst, ◌∙◌, arith, Bool, true, false, if◌then◌else◌, none, some, Bool-cases, inl,
  inr, List, [], ◌∷◌, ◌++◌, String, str_eq,
}
use upcloud_csi.Go.{ok, err, Error, pure, lift, ◌>>=◌, ◌>>◌}
use upcloud_csi.Go.Inversion.{bind-eq-ok}
use upcloud_csi.Go.Text.{trim_space}
use upcloud_csi.Filesystem.System.{
  System, Output, MountEntry, run_command, run_or_wrap, run_no_output,
}
use upcloud_csi.Filesystem.Mounts.{
  entries_of, findmnt_args, findmnt, is_target_shared, is_target_mounted, mount_source, mount_point,
  mount_options, unmount_target, read_entries, stat_there,
}
use upcloud_csi.Filesystem.Tools.{ran}
use upcloud_csi.Filesystem.Linux.{LinuxFilesystem, linux_filesystem}
use upcloud_csi.Node.{Node}
use upcloud_csi.Node.Targets.{HostMounts}

-- The columns that `IsMounted` asks for.
abbrev pub columns : String
columns = "TARGET,PROPAGATION,FSTYPE,OPTIONS"

-- An answer of findmnt: it fails and writes nothing for a path where nothing is mounted, and it
-- reports the one mount there, which is shared, otherwise.
abbrev pub IsReport : {S : Type 0} → System S → Bool → String → Output → Type 0
IsReport y false path out =
    (e : Error) × (out.failure ≡ some e) × (str_eq (trim_space out.text) "" ≡ true)
IsReport y true path out =
    (x : MountEntry) × (out.failure ≡ none)
    × (str_eq out.text "" ≡ false)
    × (y.decode out.text ≡ some (some (x ∷ [])))
    × (str_eq x.target path ≡ true)
    × (str_eq x.propagation "shared" ≡ true)

-- What the tools and the system calls promise of the table of mounts and of the paths.
pub record MountTable {S : Type 0} (y : System S) (mounted : S → String → Bool) : Type 0 where
  pub reports :
      (path : String) (s : S)
      → str_eq path "" ≡ false
      → IsReport y (mounted s path) path (y.run "findmnt" (findmnt_args columns path) s).0
  pub reads : (path : String) (s : S) → (y.run "findmnt" (findmnt_args columns path) s).1 ≡ s
  pub mounts :
      (args : List String) (source path : String) (s s' : S) (text : String)
      → run_command y "mount" (args ++ (source ∷ path ∷ [])) s ≡ (ok text, s')
      → mounted s' path ≡ true
  pub unmounts :
      (path : String) (s s' : S) (text : String)
      → run_command y "umount" (path ∷ []) s ≡ (ok text, s')
      → mounted s' path ≡ false
  pub looks : (path : String) (s : S) → (y.os.stat path s).1 ≡ s
  pub is_there : (path : String) (s : S) → mounted s path ≡ true → (y.os.stat path s).0 ≡ ok tt
  pub removes :
      (path : String) (s s' : S)
      → y.os.remove path s ≡ (ok tt, s')
      → (mounted s' path ≡ mounted s path) × ((e : Error) × ((y.os.stat path s').0 ≡ err e))

module _ {S : Type 0} (y : System S) (mounted : S → String → Bool)
    (table : MountTable y mounted) where
  report_read :
      (b : Bool) (path : String) (out : Output) (s : S)
      → IsReport y b path out
      → (lift (entries_of y.decode out) >>= read_entries y path) s ≡ (ok b, s)
  unfolding entries_of is_target_shared
  report_read false path out s (e, failed, blank) = ground (arith, failed, blank)
  report_read true path out s (x, fine, full, found, here, shared) =
      ground (arith, fine, full, found, here, shared)

  mounted_read :
      (path : String) (s : S)
      → str_eq path "" ≡ false
      → is_target_mounted y path s ≡ (ok (mounted s path), s)
  unfolding is_target_mounted findmnt
  mounted_read path s full =
      let (out, t) = y.run "findmnt" (findmnt_args columns path) s in
      let read = report_read (mounted s path) path out s (table.reports path s full) in
      rw full (
        subst
          (λ z.
            (lift (entries_of y.decode out) >>= read_entries y path) z ≡ (ok (mounted s path), s))
          (sym (table.reads path s)) read)

  source_mounted :
      (source path fs_type : String) (options : List String) (s s' : S)
      → mount_source y source path fs_type options s ≡ (ok tt, s')
      → mounted s' path ≡ true
  unfolding mount_source
  source_mounted source path fs_type options s s' e = elim (Bool-cases (str_eq source "")) [
    | inl none' ↦ absurd (cc (rw none' at e))
    | inr a ↦ elim (Bool-cases (str_eq path "")) [
      | inl none' ↦ absurd (cc (rw (a, none') at e))
      | inr b ↦
          let rest = source ∷ path ∷ [] in
          let (args, t, _, r) =
            bind-eq-ok (mount_point y path fs_type)
              (λ args. run_or_wrap y "mount" (args ++ mount_options y options ++ rest) >> pure tt) s
              s' tt (rw (a, b) at e) in
          let (text, f) = ran y "mount" (args ++ mount_options y options ++ rest) t s' r in
          table.mounts (args ++ mount_options y options) source path t s' text f
    ]
  ]

  target_unmounted :
      (path : String) (s s' : S)
      → mounted s path ≡ true
      → unmount_target y path s ≡ (ok tt, s')
      → mounted s' path ≡ false
  unfolding unmount_target
  target_unmounted path s s' there e = elim (Bool-cases (str_eq path "")) [
    | inl none' ↦ absurd (cc (rw none' at e))
    | inr full ↦
        let (b, t, e1, e2) =
          bind-eq-ok (stat_there y path)
            (λ b. if b then run_no_output y "umount" (path ∷ []) else pure tt) s s' tt
            (rw full at e) in
        let yes' : b ≡ true = ground (arith, table.is_there path s there, e1) in
        let run' : run_no_output y "umount" (path ∷ []) t ≡ (ok tt, s') =
          subst (λ z. (if z then run_no_output y "umount" (path ∷ []) else pure tt) t ≡ (ok tt, s'))
            yes' e2 in
        let (text, t', f, r) =
          bind-eq-ok (run_command y "umount" (path ∷ [])) (λ z. pure tt) t s' tt run' in
        table.unmounts path t s' text (f ∙ ap (λ z. (ok text, z)) (ap (λ z. z.1) r))
  ]

-- The node server as the plugin makes it: over the Linux filesystem and the files of its host.
abbrev pub over_linux : {S : Type 0} → LinuxFilesystem S → Node S → Node S
over_linux m n = record n { fs = linux_filesystem m; os = m.system.os }

-- The Linux filesystem implements what the node server relies on: where the tools and the system calls
-- of the host keep their promises about its table of mounts, a node server over it is one whose host
-- mounts behave.
pub linux_filesystem-HostMounts :
    {S : Type 0} (m : LinuxFilesystem S) (n : Node S) (mounted : S → String → Bool)
    → MountTable m.system mounted
    → HostMounts (over_linux m n) mounted
unfolding linux_filesystem
linux_filesystem-HostMounts m n mounted table = record {
  asks = mounted_read m.system mounted table;
  mounts = source_mounted m.system mounted table;
  unmounts = target_unmounted m.system mounted table;
  looks = table.looks;
  removes = table.removes;
}
