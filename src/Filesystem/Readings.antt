-- ===== src/Filesystem/Readings.antt =====
-- The two readings of an answer of findmnt (internal/filesystem/linux_filesystem.go).
use upcloud_csi.Base.{
  ◌≡◌, refl, subst, arith, Bool, true, false, Bool-cases, ◌⊎◌, inl, inr, List, [], ◌∷◌, String,
  str_eq,
}
use upcloud_csi.Go.{Result, ok, err, sentinel, not_mounted}
use upcloud_csi.Filesystem.{MountInfo}
use upcloud_csi.Filesystem.System.{MountEntry}
use upcloud_csi.Filesystem.Mounts.{is_target_shared, find_mount}

-- Both see a mount, or neither does.
abbrev pub Agree : Bool → Bool → Result MountInfo → Type 0
Agree found b r =
    ((b ≡ true) × (info : MountInfo) × (r ≡ ok info))
    ⊎ ((b ≡ found) × (r ≡ err (sentinel not_mounted)))

sees : (b : Bool) (r : Result MountInfo) → Agree true b r → b ≡ true
sees b r (inl (there, _, _)) = there
sees b r (inr (there, _)) = there

readings_of :
    (target : String) (found b : Bool) (entries : List MountEntry)
    → is_target_shared target found entries ≡ ok b
    → Agree found b (find_mount target entries)
unfolding is_target_shared find_mount
readings_of target found b [] e = inr (ground (arith, e), refl)
readings_of target found b (x ∷ xs) e = elim (Bool-cases (str_eq x.propagation "shared")) [
  | inr private ↦ absurd (cc (rw private at e))
  | inl shared ↦ elim (Bool-cases (str_eq x.target target)) [
    | inl here ↦
        let rest = readings_of target true b xs (rw (shared, here) at e) in
        let info : MountInfo = record {
          source = x.source;
          fs_type = x.fs_type;
          options = x.options;
        } in
        inl (sees b (find_mount target xs) rest, info, rw (here, shared))
    | inr other ↦
        subst (Agree found b) (rw other) (readings_of target found b xs (rw (shared, other) at e))
  ]
]

-- Where `IsMounted` reads an answer of findmnt without an error, `GetMountInfo` reads the same in it:
-- a mount at the target where the first says that there is one, `ErrNotMounted` where it says
-- that there is none.
is_target_shared-find_mount :
    (target : String) (b : Bool) (entries : List MountEntry)
    → is_target_shared target false entries ≡ ok b
    → ((b ≡ true) × (info : MountInfo) × (find_mount target entries ≡ ok info))
      ⊎ ((b ≡ false) × (find_mount target entries ≡ err (sentinel not_mounted)))
is_target_shared-find_mount target b entries e = readings_of target false b entries e
