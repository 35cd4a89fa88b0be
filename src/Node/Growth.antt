-- ===== src/Node/Growth.antt =====
-- What NodeExpandVolume (internal/node/node.go) does to a volume of block storage on a Linux host.
use upcloud_csi.Base.{◌≡◌, String}
use upcloud_csi.Go.{ok}
use upcloud_csi.Csi.NodeMessages.{NodeExpandRequest}
use upcloud_csi.Filesystem.Linux.{LinuxFilesystem}
use upcloud_csi.Filesystem.Mounts.{device_by_id}
use upcloud_csi.Filesystem.Growth.{IsResized}
use upcloud_csi.Node.{Node}

-- The device of a volume was found, its path is there, and its filesystem was resized.
abbrev pub IsExpanded : {S : Type 0} → LinuxFilesystem S → NodeExpandRequest → S → S → Type 0
IsExpanded {S = S} m req s s' =
    (source : String) × (found : S) × (there : S) × (device_by_id m.system req.volume_id s
      ≡ (ok source, found))
    × (m.system.os.stat req.volume_path found ≡ (ok tt, there))
    × IsResized m.system source req.volume_path there s'
