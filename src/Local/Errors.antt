-- ===== src/Local/Errors.antt =====
-- plugins/Local/src/LocalError.cpp: the errors of the local plugin.
use rstudio_launcher_plugin.Base.{ℕ, [], String}
use rstudio_launcher_plugin.Options.Errors.{Error, error}

-- `LocalError`, without its success.
pub data LocalError : Type 0 where
  invalid_mount_type invalid_job_config job_launch_error no_pid unsupported_op : LocalError

unfoldable pub local_error_code : LocalError → ℕ
local_error_code invalid_mount_type = 1
local_error_code invalid_job_config = 2
local_error_code job_launch_error = 3
local_error_code no_pid = 4
local_error_code unsupported_op = 5

-- `createError`, with the error that caused it.
unfoldable pub create_error : LocalError → String → Error → Error
unfolding local_error_code
create_error code message cause = error "LocalPluginError" (local_error_code code) message [] cause
