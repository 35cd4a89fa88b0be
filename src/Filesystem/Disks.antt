-- ===== src/Filesystem/Disks.antt =====
-- Disks, partitions and tools of the host (internal/filesystem/linux_utils.go).
use upcloud_csi.Base.{
  ℕ, zero, suc, ◌-◌, ◌*◌, ℤ, pos, Option, none, some, List, [], ◌∷◌, String, ◌<>◌, starts_with,
  str_eq, leb, ltb, if◌then◌else◌,
}
use upcloud_csi.Go.{
  Action, Result, ok, err, Error, sentinel, problem, status, wrap, plain, exit_status, os_error,
  disk_not_found, partition_not_found, tool_not_found, executable_not_found, is_error, is_not_exist,
  pure, raise, catch, attempt, for_each, ◌>>=◌, ◌>>◌,
}
use upcloud_csi.Go.Text.{split, join, trim_space}
use upcloud_csi.Go.Path.{is_abs, clean, dir, join_path}
use upcloud_csi.Filesystem.System.{System, run_no_output}
use Prim.Native.String.{len, slice}

abbrev pub udev_disk_by_id_path : String
udev_disk_by_id_path = "/dev/disk/by-id"

abbrev pub disk_prefix : String
disk_prefix = "virtio-"

abbrev pub second : ℕ
second = 1000000000

abbrev pub udev_disk_timeout : ℕ
udev_disk_timeout = 60

-- A volume ID as udev names its disk: 20 bytes of it, without the dashes.
unfoldable pub volume_id_to_disk_id : String → Result String
volume_id_to_disk_id volume_id =
    let full_id = join "" (split 45 volume_id) in
    if leb (len full_id) 20
    then err (plain "volume ID too short")
    else ok (disk_prefix <> slice full_id 0 20)

-- The loop over the lines from the last: the first that, trimmed, begins with the source.
unfoldable pub last_line_of : String → List String → Option String
last_line_of source [] = none
last_line_of source (line ∷ lines) = elim (last_line_of source lines) [
  | some found ↦ some found
  | none ↦
      let partition = trim_space line in
      if starts_with partition source then some partition else none
]

abbrev pub text_or_empty : Option String → String
text_or_empty none = ""
text_or_empty (some text) = text

unfoldable pub sfdisk_output_get_last_partition : String → String → Result String
unfolding last_line_of
sfdisk_output_get_last_partition source sfdisk_output =
    let last_partition = text_or_empty (last_line_of source (split 10 sfdisk_output)) in
    if str_eq last_partition ""
    then err (wrap (sentinel partition_not_found))
    else ok last_partition

-- `errors.As(err, &exitError)`, and 0 where there is none.
unfoldable pub cmd_exit_code : Error → ℤ
cmd_exit_code (exit_status n) = n
cmd_exit_code (wrap e) = cmd_exit_code e
cmd_exit_code (sentinel s) = pos 0
cmd_exit_code (problem p) = pos 0
cmd_exit_code (status c) = pos 0
cmd_exit_code (plain m) = pos 0
cmd_exit_code (os_error b) = pos 0

module _ {S : Type 0} (y : System S) where
  -- `udevadm settle`, where there is a `udevadm`.
  unfoldable pub udev_wait_disk_to_settle : String → Action S (Unit {0})
  udev_wait_disk_to_settle path = do
    udevadm ← attempt (y.look_path "udevadm")
    elim udevadm [
      | none ↦ pure tt
      | some cmd ↦
          run_no_output y cmd ("settle" ∷ "--timeout=20" ∷ ("--exit-if-exists=" <> path) ∷ [])
    ]

  -- What the link reads, "" where it is not there.
  abbrev pub read_link : String → Action S String
  read_link ln = catch (y.os.readlink ln) (λ e. if is_not_exist e then pure "" else raise e)

  -- The rest of a round of the loop, and of the loop.
  abbrev pub after_read : Action S String → String → Action S String
  after_read rest dev s = if str_eq dev "" then rest (y.sleep (2 * second) s) else (ok dev, s)

  -- The loop that reads the link every two seconds, for a minute after `start`; "" if the time is
  -- over. The fuel bounds the rounds.
  unfoldable pub poll_link : ℕ → String → ℕ → Action S String
  poll_link zero ln start s = (ok "", s)
  poll_link (suc fuel) ln start s =
      let rest = poll_link fuel ln start in
      if ltb (y.now s - start) (second * udev_disk_timeout)
      then (read_link ln >>= after_read rest) s
      else (ok "", s)

  -- Thirty rounds of two seconds are a minute.
  abbrev pub poll_rounds : ℕ
  poll_rounds = 30

  -- The path that a link reads, made absolute.
  unfoldable pub abs_path : String → String → Action S String
  abs_path ln dev =
      if is_abs dev
      then pure dev
      else (let path = join_path (dir ln) dev in
          if is_abs path then pure (clean path) else (do wd ← y.getwd; pure (join_path wd path)))

  unfoldable pub get_block_device_by_disk_id : String → Action S String
  unfolding udev_wait_disk_to_settle poll_link abs_path
  get_block_device_by_disk_id disk_id = do
    let ln = if is_abs disk_id then disk_id else join_path udev_disk_by_id_path disk_id
    udev_wait_disk_to_settle ln
    dev ← λ s. poll_link poll_rounds ln (y.now s) s
    if str_eq dev "" then raise (sentinel disk_not_found) else pure tt
    path ← abs_path ln dev
    y.os.stat path
    pure path

  unfoldable pub create_block_device : String → Action S (Unit {0})
  create_block_device target = do y.os.mkdir_all (dir target); y.os.create target; y.os.close target

  -- An error other than `exec.ErrNotFound` is passed over.
  abbrev check_tool : String → Action S (Unit {0})
  check_tool tool = catch (y.look_path tool >> pure tt) (λ e.
      if is_error e executable_not_found then raise (wrap (sentinel tool_not_found)) else pure tt)

  unfoldable pub check_tools_exists : List String → Action S (Unit {0})
  check_tools_exists tools = for_each check_tool tools
