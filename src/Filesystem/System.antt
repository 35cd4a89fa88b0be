-- ===== src/Filesystem/System.antt =====
-- What internal/filesystem/linux_filesystem.go and internal/filesystem/linux_utils.go call of the
-- host: commands, system calls, the clock, and `json.Unmarshal` of the answers of findmnt.
use upcloud_csi.Base.{ℕ, Option, none, some, List, String}
use upcloud_csi.Go.{Action, ok, err, Error, wrap, pure, map_error, ◌>>◌}
use upcloud_csi.Go.Os.{Os}

-- What a command has written, and how it has failed, if it has.
pub record Output : Type 0 where
  pub text : String
  pub failure : Option Error

-- An element of `filesystems` in an answer of findmnt.
pub record MountEntry : Type 0 where
  pub source : String
  pub target : String
  pub propagation : String
  pub fs_type : String
  pub options : String

-- The fields of `unix.Statfs_t` that are read, as 64-bit patterns.
pub record Statfs : Type 0 where
  pub bavail : ℕ
  pub bsize : ℕ
  pub blocks : ℕ
  pub bfree : ℕ
  pub files : ℕ
  pub ffree : ℕ

pub record System (S : Type 0) : Type 0 where
  -- `exec.CommandContext(…).CombinedOutput()`
  pub run : String → List String → S → Output × S
  pub look_path : String → Action S String
  pub os : Os S
  pub getwd : Action S String
  -- Nanoseconds of the monotonic clock, and `time.Sleep`.
  pub now : S → ℕ
  pub sleep : ℕ → S → S
  pub statfs : String → Action S Statfs
  pub open_device : String → Action S ℕ
  pub device_size : ℕ → Action S ℕ
  pub close_device : ℕ → Action S (Unit {0})
  -- `none` where the text does not decode, and no list where it is the JSON `null`.
  pub decode : String → Option (Option (List MountEntry))

-- `runCommand`, for a caller that reads what a command has written only where it has not failed.
abbrev pub run_command : {S : Type 0} → System S → String → List String → Action S String
run_command y cmd args s =
    let (out, s') = y.run cmd args s in
    elim out.failure [ none ↦ (ok out.text, s') | some e ↦ (err e, s') ]

-- A command whose failure is wrapped in an error of its own.
abbrev pub run_or_wrap : {S : Type 0} → System S → String → List String → Action S String
run_or_wrap y cmd args = map_error wrap (run_command y cmd args)

-- `runCommandNoOutput`
abbrev pub run_no_output : {S : Type 0} → System S → String → List String → Action S (Unit {0})
run_no_output y cmd args = run_command y cmd args >> pure tt
