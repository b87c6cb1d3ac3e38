-- ===== src/Alarm/Errors.antt =====
-- alarm-system/src/errors/errorCodes.ts: what a request may be refused with. A constructor of
-- `AppError` is a member of `Errors` with its data; `internal` is any other exception.
use Prim.Native.String.{String}
use task_manger_project.Common.{ℕ, List, ℤ}

abbrev pub min_duration_sec : ℕ
min_duration_sec = 60

abbrev pub max_duration_sec : ℕ
max_duration_sec = 86340

pub data AppError : Type 0 where
  duration_required duration_out_of_range invalid_elapsed invalid_available : AppError
  task_not_found forbidden internal : AppError
  insufficient_available_time : ℤ → ℕ → AppError
  available_below_allocated : ℕ → AppError
  priority_task_exists : ℕ → List ℕ → AppError
  invalid_transition validation : String → AppError

unfoldable pub status_of : AppError → ℕ
status_of duration_required = 400
status_of duration_out_of_range = 400
status_of (insufficient_available_time remaining requested) = 409
status_of (available_below_allocated allocated) = 400
status_of invalid_elapsed = 400
status_of invalid_available = 400
status_of task_not_found = 404
status_of forbidden = 403
status_of (priority_task_exists id title) = 409
status_of (invalid_transition message) = 400
status_of (validation message) = 400
status_of internal = 500

unfoldable pub code_of : AppError → String
code_of duration_required = "DURATION_REQUIRED"
code_of duration_out_of_range = "DURATION_OUT_OF_RANGE"
code_of (insufficient_available_time remaining requested) = "INSUFFICIENT_AVAILABLE_TIME"
code_of (available_below_allocated allocated) = "AVAILABLE_BELOW_ALLOCATED"
code_of invalid_elapsed = "INVALID_ELAPSED"
code_of invalid_available = "INVALID_AVAILABLE"
code_of task_not_found = "TASK_NOT_FOUND"
code_of forbidden = "FORBIDDEN"
code_of (priority_task_exists id title) = "PRIORITY_TASK_EXISTS"
code_of (invalid_transition message) = "INVALID_TRANSITION"
code_of (validation message) = "VALIDATION"
code_of internal = "INTERNAL_SERVER_ERROR"
