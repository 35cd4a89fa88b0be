-- ===== src/Tests/Tables.antt =====
-- A host with a table of mounts, behind its tools.
use upcloud_csi.Base.{
  ◌≡◌, ◌∙◌, refl, sym, ap, subst, eq_refl, pos, Bool, true, false, ◌||◌, none, some, List, [], ◌∷◌,
  ◌++◌, String, str_eq, if◌then◌else◌, Bool-cases, inl, inr,
}
use upcloud_csi.Go.{ok, err, plain, os_error}
use upcloud_csi.Go.Os.{Os}
use upcloud_csi.Go.Text.{trim_space}
use upcloud_csi.Filesystem.System.{System, Output}
use upcloud_csi.Filesystem.Linux.{LinuxFilesystem, linux_filesystem}
use upcloud_csi.Node.{Node}
use upcloud_csi.Node.Targets.{HostMounts}
use upcloud_csi.Node.Host.{MountTable, IsReport, over_linux, linux_filesystem-HostMounts}
use upcloud_csi.Tests.Fixtures.{host, no_os}

pub record Table : Type 0 where
  pub mounts : String → Bool
  pub there : String → Bool

abbrev pub put : String → Bool → (String → Bool) → String → Bool
put k a f k' = if str_eq k' k then a else f k'

abbrev pub last_of : List String → String
last_of [] = ""
last_of (x ∷ []) = x
last_of (x ∷ y ∷ ys) = last_of (y ∷ ys)

abbrev pub fourth : List String → String
fourth (a ∷ b ∷ c ∷ d ∷ rest) = d
fourth _ = ""

-- The path itself, as the answer for a mount.
abbrev pub report : Bool → String → Output
report true path = record { text = path; failure = none }
report false path = record { text = ""; failure = some (plain "no mount") }

abbrev run : String → List String → Table → Output × Table
run cmd args s =
    if str_eq cmd "findmnt"
    then (report (s.mounts (fourth args)) (fourth args), s)
    else if str_eq cmd "mount"
    then (report true "", record { mounts = put (last_of args) true s.mounts; there = s.there })
    else if str_eq cmd "umount"
    then (report true "", record { mounts = put (last_of args) false s.mounts; there = s.there })
    else (report false "", s)

-- A mount point is there, and cannot be removed.
abbrev table_os : Os Table
table_os = record no_os {
  stat = λ path s. (if s.mounts path || s.there path then ok tt else err (os_error true), s);
  remove = λ path s.
      if s.mounts path
      then (err (os_error false), s)
      else (ok tt, record { mounts = s.mounts; there = put path false s.there });
  mkdir_all = λ path s. (ok tt, record { mounts = s.mounts; there = put path true s.there });
}

abbrev pub with_table : System Table
with_table = record (host run (λ _. 0) (λ _ s. s)) {
  os = table_os;
  decode = λ text. some (
      some (
        record {
          source = "/dev/vda1";
          target = text;
          propagation = "shared";
          fs_type = "ext4";
          options = "rw";
        }
        ∷ []));
}

reported :
    (b : Bool) (path : String) → str_eq path "" ≡ false → IsReport with_table b path (report b path)
unfolding trim_space
reported true path full = (
  record {
    source = "/dev/vda1";
    target = path;
    propagation = "shared";
    fs_type = "ext4";
    options = "rw";
  },
  refl,
  full,
  refl,
  eq_refl path,
  refl,
)
reported false path full = (plain "no mount", refl, refl)

pub last_of-append : (args : List String) (x y : String) → last_of (args ++ (x ∷ y ∷ [])) ≡ y
last_of-append [] x y = refl
last_of-append (a ∷ []) x y = refl
last_of-append (a ∷ b ∷ bs) x y = last_of-append (b ∷ bs) x y

pub with_table-MountTable : MountTable with_table (λ s. s.mounts)
with_table-MountTable = record {
  reports = λ path s full. reported (s.mounts path) path full;
  reads = λ path s. refl;
  mounts = λ args source path s s' text e.
      subst (λ (z : Table). z.mounts path ≡ true) (ap (λ z. z.1) e)
        (rw (last_of-append args source path, eq_refl path));
  unmounts = λ path s s' text e.
      subst (λ (z : Table). z.mounts path ≡ false) (ap (λ z. z.1) e) (rw (eq_refl path));
  looks = λ path s. refl;
  is_there = λ path s there. rw there;
  removes = λ path s s' e. elim (Bool-cases (s.mounts path)) [
    | inl there ↦ absurd (cc (rw there at e))
    | inr free ↦
        let gone : table_os.remove path s
            ≡ (ok tt, record { mounts = s.mounts; there = put path false s.there }) =
          rw free in
        let same : record { mounts = s.mounts; there = put path false s.there } ≡ s' =
          ap (λ z. z.1) (sym gone ∙ e) in
        (
          sym (ap (λ (z : Table). z.mounts path) same),
          (
            os_error true,
            subst (λ (z : Table). (table_os.stat path z).0 ≡ err (os_error true)) same
                (rw (free, eq_refl path)),
          ),
        )
  ];
}

abbrev pub linux : LinuxFilesystem Table
linux = record { filesystem_types = "ext4" ∷ []; system = with_table }

abbrev pub node : Node Table
node = record {
  name = "node";
  zone = "fi-hel1";
  max_volumes_per_node = pos 14;
  fs = linux_filesystem linux;
  os = table_os;
  parses_uuid = λ _. true;
}

linux_filesystem-HostMounts_example : HostMounts (over_linux linux node) (λ s. s.mounts)
linux_filesystem-HostMounts_example =
    linux_filesystem-HostMounts linux node (λ s. s.mounts) with_table-MountTable
