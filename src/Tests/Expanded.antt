-- ===== src/Tests/Expanded.antt =====
-- A volume that grows on a host with tools.
use upcloud_csi.Base.{pos, true, some, [], ◌∷◌}
use upcloud_csi.Go.{ok}
use upcloud_csi.Csi.{single_node_writer, mount}
use upcloud_csi.Csi.NodeMessages.{NodeExpandRequest}
use upcloud_csi.Filesystem.System.{System}
use upcloud_csi.Filesystem.Linux.{LinuxFilesystem, linux_filesystem}
use upcloud_csi.Node.{Node}
use upcloud_csi.Tests.Fixtures.{no_os}
use upcloud_csi.Tests.Devices.{Stage, tooled}

-- The disk is linked, and every path is there.
abbrev linked : System Stage
linked = record tooled {
  os = record no_os { readlink = λ ln s. (ok "/dev/vda", s); stat = λ path s. (ok tt, s) };
}

abbrev linux : LinuxFilesystem Stage
linux = record { filesystem_types = "ext4" ∷ []; system = linked }

abbrev node : Node Stage
node = record {
  name = "node";
  zone = "fi-hel1";
  max_volumes_per_node = pos 14;
  fs = linux_filesystem linux;
  os = linked.os;
  parses_uuid = λ _. true;
}

abbrev request : NodeExpandRequest
request = record {
  volume_id = "01d4fcd4-e446-433b-8a9c-551a1284952e";
  volume_path = "/mnt";
  volume_capability = some (record {
    access_mode = some single_node_writer;
    access_type = mount (record { fs_type = "ext4"; mount_flags = [] });
  });
}
