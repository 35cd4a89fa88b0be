-- ===== src/Go/Errors.antt =====
-- Go's `error` as the driver builds and inspects it. Message texts are left out, except the
-- constant ones that tell plain errors apart.
use upcloud_csi.Base.{ℕ, ℤ, Bool, true, false, Option, none, some, String}

-- The values of `errors.New` that callers compare by `errors.Is`
-- (internal/service/service.go, internal/filesystem), and the `ErrHelp` of pflag and the
-- `ErrServerClosed` of net/http, which cmd compares with.
pub data Sentinel : Type 0 where
  storage_not_found server_not_found server_storage_not_found : Sentinel
  backup_in_progress file_storage_not_found not_mounted : Sentinel
  disk_not_found partition_not_found tool_not_found executable_not_found : Sentinel
  help_requested server_closed : Sentinel

abbrev pub same_sentinel : Sentinel → Sentinel → Bool
same_sentinel storage_not_found storage_not_found = true
same_sentinel server_not_found server_not_found = true
same_sentinel server_storage_not_found server_storage_not_found = true
same_sentinel backup_in_progress backup_in_progress = true
same_sentinel file_storage_not_found file_storage_not_found = true
same_sentinel not_mounted not_mounted = true
same_sentinel disk_not_found disk_not_found = true
same_sentinel partition_not_found partition_not_found = true
same_sentinel tool_not_found tool_not_found = true
same_sentinel executable_not_found executable_not_found = true
same_sentinel help_requested help_requested = true
same_sentinel server_closed server_closed = true
same_sentinel _ _ = false

-- The gRPC codes that the driver returns.
pub data Code : Type 0 where
  invalid_argument not_found already_exists out_of_range : Code
  resource_exhausted failed_precondition aborted internal unimplemented : Code

-- The SDK's `*upcloud.Problem`: the HTTP status, and what `ErrorCode()` returns.
pub record Problem : Type 0 where
  pub http_status : ℕ
  pub error_code : String

pub data Error : Type 0 where
  sentinel : Sentinel → Error
  problem : Problem → Error
  -- `status.Error`: only the text of a cause is kept, so no cause can be found in it.
  status : Code → Error
  -- `fmt.Errorf` with `%w`
  wrap : Error → Error
  plain : String → Error
  -- `*exec.ExitError`, with the exit code of the command.
  exit_status : ℤ → Error
  -- An error of the operating system: whether `os.IsNotExist` holds of it.
  os_error : Bool → Error

-- `errors.Is(err, s)`
abbrev pub is_error : Error → Sentinel → Bool
is_error (sentinel s) t = same_sentinel s t
is_error (wrap e) t = is_error e t
is_error (problem p) t = false
is_error (status c) t = false
is_error (plain m) t = false
is_error (exit_status n) t = false
is_error (os_error b) t = false

-- `errors.As(err, &problem)`
abbrev pub as_problem : Error → Option Problem
as_problem (problem p) = some p
as_problem (wrap e) = as_problem e
as_problem (sentinel s) = none
as_problem (status c) = none
as_problem (plain m) = none
as_problem (exit_status n) = none
as_problem (os_error b) = none

-- `os.IsNotExist(err)`, which looks through no wrapping.
abbrev pub is_not_exist : Error → Bool
is_not_exist (os_error b) = b
is_not_exist _ = false

-- A call that returned, with a value or an error, or that panicked.
pub data Result {ℓ} (A : Type ℓ) : Type ℓ where
  ok : A → Result A
  err : Error → Result A
  panic : Result A
