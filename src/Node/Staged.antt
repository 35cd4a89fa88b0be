-- ===== src/Node/Staged.antt =====
-- What staging a volume mounts (internal/node/node.go).
use upcloud_csi.Base.{
  ◌≡◌, refl, sym, ap, subst, ◌∙◌, Bool, true, false, Option, none, some, Bool-cases, inl, inr, List,
  [], String, str_eq, if◌then◌else◌, index, ◌<>◌,
}
use upcloud_csi.Go.{ok, map_error, allow, not_mounted, status, invalid_argument, pure, ◌>>=◌}
use upcloud_csi.Go.Inversion.{bind-eq-ok, map_error-eq-ok, allow-eq-ok}
use upcloud_csi.Csi.{AccessType, VolumeCapability, mount, unset, block, MountVolume}
use upcloud_csi.Csi.NodeMessages.{StageRequest}
use upcloud_csi.Filesystem.{MountInfo}
use upcloud_csi.Go.Text.{to_lower}
use upcloud_csi.Controller.{
  volume_context_type_key, volume_type_file_storage, nfs_server_key, nfs_path_key,
}
use upcloud_csi.Node.{
  Node, nfs_mount_options, stage_capability, stage_access, stage_mount, stage_at,
  stage_file_storage_volume, current_mount, mount_unless_mounted, fs_type_or_default,
  internal_error,
}
use upcloud_csi.Node.Frame.{set, HostFrame, Sets-of, stage_file-Spares, stage_mount-Spares}
use upcloud_csi.Node.Targets.{HostMounts, target_mounted}

-- A volume of block storage that is to be published as a device: staging it mounts nothing.
abbrev pub raw : AccessType → Bool
raw block = true
raw (mount mnt) = false
raw unset = false

abbrev pub is_raw : StageRequest → Option VolumeCapability → Bool
is_raw req none = false
is_raw req (some cap) =
    if str_eq (index req.volume_context volume_context_type_key) volume_type_file_storage
    then false
    else raw cap.access_type

module _ {S : Type 0} (n : Node S) (mounted : S → String → Bool) (host : HostMounts n mounted)
    (frame : HostFrame n mounted) where
  -- A file storage volume that was staged is mounted.
  file_staged :
      (req : StageRequest) (s s' : S)
      → str_eq req.staging_target_path "" ≡ false
      → stage_file_storage_volume n req s ≡ (ok tt, s')
      → mounted s' req.staging_target_path ≡ true
  unfolding stage_file_storage_volume mount_unless_mounted
  file_staged req s s' full e =
      let server = index req.volume_context nfs_server_key in
      let path = index req.volume_context nfs_path_key in
      elim (Bool-cases (str_eq server "")) [
        | inl none' ↦ absurd (cc (rw none' at e))
        | inr from ↦ elim (Bool-cases (str_eq path "")) [
          | inl none' ↦ absurd (cc (rw (from, none') at e))
          | inr at ↦
              target_mounted n mounted host (server <> (":" <> path)) req.staging_target_path "nfs"
                nfs_mount_options s s' full (rw (from, at) at e)
        ]
      ]

  staged_at :
      (req : StageRequest) (source fs_type : String) (options : List String) (o : Option MountInfo)
      (s s' : S)
      → ((info : MountInfo) → o ≡ some info → mounted s req.staging_target_path ≡ true)
      → stage_at n req source fs_type options o s ≡ (ok tt, s')
      → mounted s' req.staging_target_path ≡ true
  unfolding stage_at
  staged_at req source fs_type options (some info) s s' there e =
      elim (Bool-cases (str_eq (to_lower info.fs_type) (to_lower fs_type))) [
        | inr other ↦ absurd (cc (rw other at e))
        | inl same ↦
            let stays : (ok tt, s) ≡ (ok tt, s') = rw same at e in
            subst (λ z. mounted z req.staging_target_path ≡ true) (ap (λ z. z.1) stays)
              (there info refl)
      ]
  staged_at req source fs_type options none s s' there e =
      let (_, t, _, e2) =
        bind-eq-ok (map_error internal_error (n.fs.format source fs_type [])) _ s s' tt e in
      let (partition, t', _, e3) =
        bind-eq-ok (map_error internal_error (n.fs.get_device_last_partition source))
          (λ p. map_error internal_error (n.fs.mount p req.staging_target_path fs_type options)) t
          s' tt e2 in
      host.mounts partition req.staging_target_path fs_type options t' s' (
        map_error-eq-ok internal_error
          (n.fs.mount partition req.staging_target_path fs_type options) t' s' tt e3)

  abbrev given : Option (Option MountInfo) → Option MountInfo
  given none = none
  given (some info) = info

  -- A mount that is read is there afterwards.
  read_mounted :
      (path : String) (info : MountInfo) (found : Option (Option MountInfo)) (s t : S)
      → allow not_mounted (n.fs.get_mount_info path) s ≡ (ok found, t)
      → given found ≡ some info
      → mounted t path ≡ true
  read_mounted path info none s t e is = absurd (cc is)
  read_mounted path info (some o) s t e is =
      elim (allow-eq-ok not_mounted (n.fs.get_mount_info path) s t (some o) e) [
        | inr (_, odd, _, _) ↦ absurd (cc odd)
        | inl (a, same, read) ↦
            let there : n.fs.get_mount_info path s ≡ (ok (some info), t) =
              read ∙ ap (λ (z : Option MountInfo). (ok z, t)) (sym (cc same) ∙ is) in
            sym (ap (λ (z : _ × S). mounted z.1 path) read)
            ∙ (frame.reads path path).at s
            ∙ frame.informs path info s t there
      ]

  current_mounted :
      (path : String) (info : MountInfo) (o : Option MountInfo) (s t : S)
      → current_mount n path s ≡ (ok o, t)
      → o ≡ some info
      → mounted t path ≡ true
  unfolding current_mount
  current_mounted path info o s t e is =
      let (found, u, e1, e2) =
        bind-eq-ok (map_error internal_error (allow not_mounted (n.fs.get_mount_info path)))
          (λ x. pure (given x)) s t o e in
      let read : allow not_mounted (n.fs.get_mount_info path) s ≡ (ok found, u) =
        map_error-eq-ok internal_error (allow not_mounted (n.fs.get_mount_info path)) s u found
          e1 in
      subst (λ z. mounted z path ≡ true) (ap (λ z. z.1) e2)
        (read_mounted path info found s u read (cc (e2, is)))

  mount_staged :
      (req : StageRequest) (mnt : MountVolume) (s s' : S)
      → stage_mount n req mnt s ≡ (ok tt, s')
      → mounted s' req.staging_target_path ≡ true
  unfolding stage_mount
  mount_staged req mnt s s' e =
      let fs_type = fs_type_or_default mnt.fs_type in
      let (source, t, _, e1) =
        bind-eq-ok (map_error (λ c. status invalid_argument) (n.fs.get_device_by_id req.volume_id))
          (λ d.
            current_mount n req.staging_target_path >>= stage_at n req d fs_type mnt.mount_flags)
          s s' tt e in
      let (o, u, e2, e3) =
        bind-eq-ok (current_mount n req.staging_target_path)
          (stage_at n req source fs_type mnt.mount_flags) t s' tt e1 in
      staged_at req source fs_type mnt.mount_flags o u s'
        (λ info is. current_mounted req.staging_target_path info o t u e2 is) e3

  access_staged :
      (req : StageRequest) (a : AccessType) (s s' : S)
      → stage_access n req a s ≡ (ok tt, s')
      → (q : String)
      → mounted s' q
        ≡ (if raw a then mounted s q else set req.staging_target_path true (mounted s) q)
  unfolding stage_access
  access_staged req block s s' e q = sym (ap (λ (z : _ × S). mounted z.1 q) e)
  access_staged req unset s s' e q = absurd (cc e)
  access_staged req (mount mnt) s s' e q =
      Sets-of n mounted host frame req.staging_target_path true (stage_mount n req mnt) s s' e
        (mount_staged req mnt s s' e) (stage_mount-Spares n mounted host frame req mnt) q

  pub capability_staged :
      (req : StageRequest) (cap : Option VolumeCapability) (s s' : S)
      → str_eq req.staging_target_path "" ≡ false
      → stage_capability n req cap s ≡ (ok tt, s')
      → (q : String)
      → mounted s' q
        ≡ (if is_raw req cap then mounted s q else set req.staging_target_path true (mounted s) q)
  unfolding stage_capability
  capability_staged req none s s' full e q = absurd (cc e)
  capability_staged req (some cap) s s' full e q =
      elim (Bool-cases
        (str_eq (index req.volume_context volume_context_type_key) volume_type_file_storage)) [
          | inl file ↦
              let staged : stage_file_storage_volume n req s ≡ (ok tt, s') = rw file at e in
              rw file (
                Sets-of n mounted host frame req.staging_target_path true
                  (stage_file_storage_volume n req) s s' staged (file_staged req s s' full staged)
                  (stage_file-Spares n mounted host frame req full) q)
          | inr disk ↦ rw disk (access_staged req cap.access_type s s' (rw disk at e) q)
        ]
