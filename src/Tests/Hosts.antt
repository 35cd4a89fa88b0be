-- ===== src/Tests/Hosts.antt =====
-- Runs on a host with mounts and paths: staging, publishing and releasing.
use upcloud_csi.Base.{
  ◌≡◌, refl, sym, ap, subst, eq_refl, pos, Bool, true, false, Option, none, some, Bool-cases, inl,
  inr, arith, List, ◌∷◌, [], String, str_eq, if◌then◌else◌,
}
use upcloud_csi.Go.{ok, err, Error, is_not_exist, os_error}
use upcloud_csi.Go.Os.{Os}
use upcloud_csi.Csi.{VolumeCapability, single_node_writer, MountVolume, mount}
use upcloud_csi.Csi.NodeMessages.{StageRequest, NodePublishRequest, NodeUnpublishRequest}
use upcloud_csi.Filesystem.{Filesystem, MountInfo}
use upcloud_csi.Node.{
  Node, validate_node_publish_volume_request, node_stage_volume, node_publish_volume,
  node_unpublish_volume,
}
use upcloud_csi.Node.Stage.{
  HostVolumes, IsBlockStage, IsStaged, answer_of, node_stage_volume_idempotent,
}
use upcloud_csi.Node.Targets.{
  HostMounts, IsGone, node_publish_volume_idempotent, node_unpublish_volume_releases,
}
use upcloud_csi.Node.Frame.{HostFrame}
use upcloud_csi.Node.Lifecycle.{Call, stages, publishes, unpublishes, replay, calls_refine}
use upcloud_csi.Tests.Fixtures.{unavailable}

-- The filesystem type of each mount, and the paths that are there.
record Host : Type 0 where
  mounts : String → Option String
  there : String → Bool

abbrev mount_info : Option String → Option MountInfo
mount_info none = none
mount_info (some t) = some (record { source = "/dev/vda1"; fs_type = t; options = "rw" })

abbrev info_of : Host → String → Option MountInfo
info_of s path = mount_info (s.mounts path)

abbrev is_some : Option String → Bool
is_some none = false
is_some (some t) = true

abbrev mounted : Host → String → Bool
mounted s path = is_some (s.mounts path)

abbrev put {ℓ} : {A : Type ℓ} → String → A → (String → A) → String → A
put k a f k' = if str_eq k' k then a else f k'

abbrev host_filesystem : Filesystem Host
host_filesystem = record {
  format = λ source fs_type args s. (ok tt, s);
  is_mounted = λ path s. (ok (mounted s path), s);
  get_mount_info = λ path s. (answer_of (info_of s path), s);
  get_block_device_size = λ path. unavailable;
  mount = λ source path fs_type options s.
      (ok tt, record { mounts = put path (some fs_type) s.mounts; there = put path true s.there });
  unmount = λ path s. (ok tt, record { mounts = put path none s.mounts; there = s.there });
  statistics = λ path. unavailable;
  get_device_by_id = λ id s. (ok "/dev/vda", s);
  get_device_last_partition = λ source s. (ok "/dev/vda1", s);
  resize_volume = λ source path. unavailable;
}

abbrev host_os : Os Host
host_os = record {
  stat = λ path s. (if s.there path then ok tt else err (os_error true), s);
  remove = λ path s. (ok tt, record { mounts = s.mounts; there = put path false s.there });
  mkdir_all = λ path. unavailable;
  create = λ path. unavailable;
  close = λ path. unavailable;
  readlink = λ path. unavailable;
}

abbrev host_node : Node Host
host_node = record {
  name = "node";
  zone = "fi-hel1";
  max_volumes_per_node = pos 14;
  fs = host_filesystem;
  os = host_os;
  parses_uuid = λ _. true;
}

host-HostMounts : HostMounts host_node mounted
host-HostMounts = record {
  asks = λ path s _. refl;
  mounts = λ source path fs_type options s s' e.
      subst (λ (z : Host). mounted z path ≡ true) (ap (λ z. z.1) e) (rw (eq_refl path));
  unmounts = λ path s s' _ e.
      subst (λ (z : Host). mounted z path ≡ false) (ap (λ z. z.1) e) (rw (eq_refl path));
  looks = λ path s. refl;
  removes = λ path s s' e. (
    sym (ap (λ (z : Host). mounted z path) (ap (λ z. z.1) e)),
    (
      os_error true,
      subst (λ (z : Host). (host_os.stat path z).0 ≡ err (os_error true)) (ap (λ z. z.1) e)
          (rw (eq_refl path)),
    ),
  );
}

host-HostVolumes : HostVolumes host_node info_of
host-HostVolumes = record {
  asks = λ path s _. refl;
  mounts = λ source path fs_type options s s' _ _ e. (
    record { source = "/dev/vda1"; fs_type = fs_type; options = "rw" },
    subst
        (λ (z : Host).
          info_of z path
          ≡ some (record { source = "/dev/vda1"; fs_type = fs_type; options = "rw" }))
        (ap (λ z. z.1) e) (rw (info_of, eq_refl path)),
    eq_refl _,
  );
}

abbrev empty : Host
empty = record { mounts = λ _. none; there = λ _. false }

abbrev ext3 : MountVolume
ext3 = record { fs_type = "ext3"; mount_flags = [] }

abbrev with_ext3 : VolumeCapability
with_ext3 = record { access_mode = some single_node_writer; access_type = mount ext3 }

abbrev stage_request : StageRequest
stage_request = record {
  volume_id = "01aa";
  staging_target_path = "/stage";
  volume_capability = some with_ext3;
  volume_context = [];
}

stage_request-IsBlockStage : IsBlockStage stage_request ext3
stage_request-IsBlockStage = record {
  volume_named = refl;
  path_named = refl;
  capability = with_ext3;
  capability_given = refl;
  mounts = refl;
  on_disk = refl;
  plain_flags = tt;
  not_file_storage = refl;
}

-- The host after the volume was staged.
abbrev staged : Host
staged = (host_filesystem.mount "/dev/vda1" "/stage" "ext3" [] empty).1

node_stage_volume_idempotent_example :
    IsStaged host_node info_of host-HostVolumes "/stage" "ext3" staged
    × (node_stage_volume host_node stage_request staged ≡ (ok tt, staged))
unfolding node_stage_volume
node_stage_volume_idempotent_example =
    node_stage_volume_idempotent host_node info_of host-HostVolumes stage_request ext3 "/dev/vda"
      empty staged stage_request-IsBlockStage refl refl

abbrev reformatted : Host
reformatted = record { mounts = λ _. some "xfs"; there = λ _. true }

abbrev publish_request : NodePublishRequest
publish_request = record {
  volume_id = "01aa";
  staging_target_path = "/stage";
  target_path = "/target";
  volume_capability = some with_ext3;
  readonly = true;
  publish_context = [];
}

abbrev published : Host
published = (host_filesystem.mount "/stage" "/target" "ext3" [] staged).1

node_publish_volume_idempotent_example :
    (mounted published "/target" ≡ true)
    × (node_publish_volume host_node publish_request published ≡ (ok tt, published))
unfolding node_publish_volume validate_node_publish_volume_request
node_publish_volume_idempotent_example =
    node_publish_volume_idempotent host_node mounted host-HostMounts publish_request "/dev/vda"
      staged published refl refl

abbrev unpublish_request : NodeUnpublishRequest
unpublish_request = record { volume_id = "01aa"; target_path = "/target" }

abbrev unpublished : Host
unpublished = (host_os.remove "/target" (host_filesystem.unmount "/target" published).1).1

stat_absent :
    (path : String) (e : Error) (s : Host) → (host_os.stat path s).0 ≡ err e → is_not_exist e ≡ true
stat_absent path e s failed = elim (Bool-cases (s.there path)) [
  | inl there ↦ absurd (cc (rw there at failed))
  | inr free ↦ ground (arith, free, failed)
]

node_unpublish_volume_releases_example :
    IsGone host_node mounted host-HostMounts "/target" unpublished
    × (node_unpublish_volume host_node unpublish_request unpublished ≡ (ok tt, unpublished))
unfolding node_unpublish_volume
node_unpublish_volume_releases_example =
    node_unpublish_volume_releases host_node mounted host-HostMounts unpublish_request published
      unpublished stat_absent refl

answered :
    (o : Option String) (info : MountInfo)
    → answer_of (mount_info o) ≡ ok (some info)
    → is_some o ≡ true
answered none info e = absurd (cc e)
answered (some t) info e = refl

reads_mounted :
    (path : String) (info : MountInfo) (s s' : Host)
    → host_filesystem.get_mount_info path s ≡ (ok (some info), s')
    → mounted s path ≡ true
reads_mounted path info s s' e = answered (s.mounts path) info (ap (λ z. z.0) e)

host-HostFrame : HostFrame host_node mounted
host-HostFrame = record {
  finds = λ id q. record { at = λ s. refl };
  formats = λ source fs_type args q. record { at = λ s. refl };
  partitions = λ source q. record { at = λ s. refl };
  reads = λ path q. record { at = λ s. refl };
  informs = reads_mounted;
  mount_others = λ source path fs_type options q other. record { at = λ s. rw other refl };
  unmount_others = λ path q other. record { at = λ s. rw other refl };
  looks = λ path q. record { at = λ s. refl };
  removes = λ path q. record { at = λ s. refl };
}

-- The volume is staged and published, and the publication taken back.
abbrev history : List Call
history = stages stage_request ∷ publishes publish_request ∷ unpublishes unpublish_request ∷ []

calls_refine_example : mounted unpublished "/stage" ≡ replay history (mounted empty) "/stage"
unfolding node_stage_volume node_publish_volume node_unpublish_volume
    validate_node_publish_volume_request
calls_refine_example =
    calls_refine host_node mounted host-HostMounts host-HostFrame history empty unpublished refl
      "/stage"
