-- ===== src/Tests/Staged.antt =====
-- A volume that is staged on a host with a disk, tools and a table of mounts.
use upcloud_csi.Base.{
  ◌≡◌, refl, sym, ap, subst, pos, Bool, true, false, Option, none, some, List, [], ◌∷◌, ◌++◌,
  String, str_eq, eq_iff, eq_refl, All, if◌then◌else◌, Bool-cases, inl, inr,
}
use upcloud_csi.Go.{ok}
use upcloud_csi.Go.Text.{trim_space, to_lower, contains, split, join}
use upcloud_csi.Csi.{MountVolume, single_node_writer, mount}
use upcloud_csi.Csi.NodeMessages.{StageRequest}
use upcloud_csi.Filesystem.{MountInfo}
use upcloud_csi.Filesystem.System.{System, Output, run_command}
use upcloud_csi.Filesystem.Linux.{LinuxFilesystem, linux_filesystem}
use upcloud_csi.Filesystem.Mounts.{mount_options, device_by_id}
use upcloud_csi.Node.{Node, node_stage_volume}
use upcloud_csi.Node.Host.{over_linux}
use upcloud_csi.Node.Stage.{IsBlockStage, HasType, is_disk_type, is_plain}
use upcloud_csi.Node.HostStage.{VolumeTable, IsInfo, linux_stage_idempotent}
use upcloud_csi.Tests.Fixtures.{host, no_os}
use upcloud_csi.Tests.Devices.{Stage, blank, formatted, tooled}
use upcloud_csi.Tests.Tables.{put, last_of, last_of-append, fourth, report, with_table}

record World : Type 0 where
  disk : Stage
  mounts : String → Bool

abbrev second : List String → String
second (a ∷ b ∷ rest) = b
second _ = ""

-- A host that mounts ext4 only.
abbrev run : String → List String → World → Output × World
run cmd args s =
    if str_eq cmd "findmnt"
    then (report (s.mounts (fourth args)) (fourth args), s)
    else if str_eq cmd "mount"
    then (if str_eq (second args) "ext4"
        then (report true "", record s { mounts = put (last_of args) true s.mounts })
        else (report false "", s))
    else (let (out, d) = tooled.run cmd args s.disk in (out, record s { disk = d }))

abbrev equipped : System World
equipped = record (host run (λ _. 0) (λ _ s. s)) {
  os = record no_os {
    readlink = λ ln s. (ok "/dev/vda", s);
    stat = λ path s. (ok tt, s);
    mkdir_all = λ path s. (ok tt, s);
  };
  decode = with_table.decode;
}

abbrev ext4_mount : MountInfo
ext4_mount = record { source = "/dev/vda1"; fs_type = "ext4"; options = "rw" }

abbrev info_of : World → String → Option MountInfo
info_of s path = if s.mounts path then some ext4_mount else none

informed :
    (b : Bool) (path : String)
    → str_eq path "" ≡ false
    → IsInfo equipped (if b then some ext4_mount else none) path (report b path)
unfolding trim_space
informed true path full = (
  record {
    source = "/dev/vda1";
    target = path;
    propagation = "shared";
    fs_type = "ext4";
    options = "rw";
  },
  refl,
  full,
  refl,
  eq_refl path,
  refl,
  refl,
)
informed false path full = (_, refl, refl)

ext4_mounted :
    (options : List String) (source path fs_type : String) (s s' : World) (text : String)
    → is_disk_type fs_type ≡ true
    → All (λ o. is_plain o ≡ true) options
    → run_command equipped "mount"
        (("-t" ∷ fs_type ∷ mount_options equipped options) ++ (source ∷ path ∷ []))
        s
      ≡ (ok text, s')
    → (info : MountInfo) × (info_of s' path ≡ some info) × HasType fs_type info
unfolding to_lower
ext4_mounted options source path fs_type s s' text disk plain e =
    let args = mount_options equipped options in
    elim (Bool-cases (str_eq fs_type "ext4")) [
      | inr other ↦ absurd (cc (rw (run_command, other) at e))
      | inl ext4 ↦
          let made : run_command equipped "mount" (("-t" ∷ "ext4" ∷ args) ++ (source ∷ path ∷ [])) s
              ≡ (ok text, s') =
            subst
              (λ z.
                run_command equipped "mount" (("-t" ∷ z ∷ args) ++ (source ∷ path ∷ [])) s
                ≡ (ok text, s'))
              ((eq_iff fs_type "ext4").0 ext4) e in
          (
            ext4_mount,
            subst (λ (z : World). info_of z path ≡ some ext4_mount) (ap (λ z. z.1) made)
                (rw (last_of-append ("-t" ∷ "ext4" ∷ args) source path, eq_refl path)),
            subst (λ z. HasType z ext4_mount) (sym ((eq_iff fs_type "ext4").0 ext4)) refl,
          )
    ]

equipped-VolumeTable : VolumeTable equipped info_of
equipped-VolumeTable = record {
  reports = λ path s full. informed (s.mounts path) path full;
  reads = λ path s. refl;
  mounts = ext4_mounted;
}

abbrev linux : LinuxFilesystem World
linux = record { filesystem_types = "ext4" ∷ []; system = equipped }

abbrev node : Node World
node = record {
  name = "node";
  zone = "fi-hel1";
  max_volumes_per_node = pos 14;
  fs = linux_filesystem linux;
  os = equipped.os;
  parses_uuid = λ _. true;
}

abbrev ext4 : MountVolume
ext4 = record { fs_type = "ext4"; mount_flags = "noatime" ∷ [] }

abbrev request : StageRequest
request = record {
  volume_id = "01d4fcd4-e446-433b-8a9c-551a1284952e";
  staging_target_path = "/stage";
  volume_capability =
      some (record { access_mode = some single_node_writer; access_type = mount ext4 });
  volume_context = [];
}

request-IsBlockStage : IsBlockStage request ext4
unfolding contains
request-IsBlockStage = record {
  volume_named = refl;
  path_named = refl;
  capability = record { access_mode = some single_node_writer; access_type = mount ext4 };
  capability_given = refl;
  mounts = refl;
  on_disk = refl;
  plain_flags = (refl, tt);
  not_file_storage = refl;
}

-- Nothing is on the disk, and nothing is mounted.
abbrev unused : World
unused = record { disk = blank; mounts = λ _. false }

abbrev staged : World
staged = record { disk = formatted; mounts = put "/stage" true (λ _. false) }

linux_stage_idempotent_example :
    ((info : MountInfo) × (info_of staged "/stage" ≡ some info) × HasType "ext4" info)
    × (node_stage_volume (over_linux linux node) request staged ≡ (ok tt, staged))
unfolding node_stage_volume device_by_id linux_filesystem join split trim_space to_lower
linux_stage_idempotent_example =
    linux_stage_idempotent linux node info_of equipped-VolumeTable request ext4 "/dev/vda" unused
      staged request-IsBlockStage refl refl
