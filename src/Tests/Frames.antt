-- ===== src/Tests/Frames.antt =====
-- The node server over a host whose tools change one mount each.
use upcloud_csi.Base.{
  ◌≡◌, refl, arith, subst, true, false, some, Bool-cases, inl, inr, List, [], ◌∷◌, ◌<>◌, String,
  str_eq, eq_iff, starts_with,
}
use text.Mathlib.TextPositions.{starts_with-append}
use upcloud_csi.Go.{ok, for_each}
use upcloud_csi.Go.Text.{trim_space}
use upcloud_csi.Filesystem.{MountInfo}
use upcloud_csi.Filesystem.System.{MountEntry, run_command}
use upcloud_csi.Filesystem.Mounts.{entries_of, findmnt_args, find_mount}
use upcloud_csi.Csi.{single_node_writer, VolumeCapability, mount}
use upcloud_csi.Csi.NodeMessages.{NodePublishRequest}
use upcloud_csi.Filesystem.Linux.{linux_filesystem}
use upcloud_csi.Node.{
  validate_node_publish_volume_request, node_publish_volume, node_unpublish_volume,
}
use upcloud_csi.Node.Host.{over_linux}
use upcloud_csi.Node.HostStage.{info_columns}
use upcloud_csi.Node.HostTools.{TableFrame}
use upcloud_csi.Node.HostFrame.{linux_calls_refine}
use upcloud_csi.Node.Lifecycle.{Call, publishes, unpublishes, call, replay}
use upcloud_csi.Tests.Tables.{Table, last_of-append, with_table, with_table-MountTable, linux, node}

-- No tool that makes a filesystem is one of another name.
other_tool :
    (fs_type tool : String)
    → starts_with tool "mkfs." ≡ false
    → str_eq ("mkfs." <> fs_type) tool ≡ false
other_tool fs_type tool other = elim (Bool-cases (str_eq ("mkfs." <> fs_type) tool)) [
  | inr differs ↦ differs
  | inl same ↦
      let begins : starts_with tool "mkfs." ≡ true =
        subst (λ t. starts_with t "mkfs." ≡ true) ((eq_iff ("mkfs." <> fs_type) tool).0 same)
          (starts_with-append "mkfs." fs_type) in
      absurd (cc (begins, other))
]

listed :
    (path : String) (s : Table) (entries : List MountEntry) (info : MountInfo)
    → entries_of with_table.decode (with_table.run "findmnt" (findmnt_args info_columns path) s).0
      ≡ ok (some entries)
    → find_mount path entries ≡ ok info
    → s.mounts path ≡ true
unfolding entries_of trim_space
listed path s entries info e found = elim (Bool-cases (s.mounts path)) [
  | inl there ↦ there
  | inr free ↦ absurd (cc (rw free at e))
]

other_keeps :
    (cmd : String) (args : List String) (q : String) (s : Table)
    → str_eq cmd "findmnt" ≡ false
    → str_eq cmd "mount" ≡ false
    → str_eq cmd "umount" ≡ false
    → (run_command with_table cmd args s).1.mounts q ≡ s.mounts q
other_keeps cmd args q s a b c = ground (arith, a, b, c)

with_table-TableFrame : TableFrame with_table (λ s. s.mounts)
with_table-TableFrame = record {
  finds = λ q tool. record { at = λ s. refl };
  settles = λ q cmd path s t found. absurd (cc found);
  reads_link = λ q ln. record { at = λ s. refl };
  sleeps = λ q d s. refl;
  asks_dir = λ q. record { at = λ s. refl };
  looks = λ q path. record { at = λ s. refl };
  removes = λ q path. record {
    at = λ s. elim (Bool-cases (s.mounts path)) [
      | inl there ↦ rw there refl
      | inr free ↦ rw free refl
    ];
  };
  makes_dir = λ q path. record { at = λ s. refl };
  creates = λ q path. record { at = λ s. refl };
  closes = λ q path. record { at = λ s. refl };
  probes = λ q args. record { at = λ s. refl };
  parts = λ q args. record { at = λ s. refl };
  lists = λ q args. record { at = λ s. refl };
  makes_filesystem = λ q fs_type args. record {
    at = λ s.
        other_keeps ("mkfs." <> fs_type) args q s (other_tool fs_type "findmnt" refl)
          (other_tool fs_type "mount" refl) (other_tool fs_type "umount" refl);
  };
  mounts_one = λ q source path args other. record {
    at = λ s. rw (last_of-append args source path, other) refl;
  };
  unmounts_one = λ q path other. record { at = λ s. rw other refl };
  reports = λ q path s. refl;
  listed = listed;
}

abbrev with_ext4 : VolumeCapability
with_ext4 = record {
  access_mode = some single_node_writer;
  access_type = mount (record { fs_type = "ext4"; mount_flags = [] });
}

abbrev publish_request : String → NodePublishRequest
publish_request target = record {
  volume_id = "01aa";
  staging_target_path = "/stage";
  target_path = target;
  volume_capability = some with_ext4;
  readonly = false;
  publish_context = [];
}

-- Two publications of a volume, one of which is taken back.
abbrev history : List Call
history =
    publishes (publish_request "/a")
    ∷ publishes (publish_request "/b")
    ∷ unpublishes (record { volume_id = "01aa"; target_path = "/a" })
    ∷ []

abbrev staged : Table
staged = record { mounts = λ path. str_eq path "/stage"; there = λ path. str_eq path "/stage" }

abbrev left : Table
left = (for_each (call (over_linux linux node)) history staged).1

linux_calls_refine_example : left.mounts "/a" ≡ replay history (λ path. staged.mounts path) "/a"
unfolding node_publish_volume validate_node_publish_volume_request node_unpublish_volume
    linux_filesystem trim_space
linux_calls_refine_example =
    linux_calls_refine linux node (λ s. s.mounts) with_table-MountTable with_table-TableFrame
      history staged left refl "/a"
