-- ===== src/Process/Run.antt =====
-- backend/internal/platform/process/process.go: one run of a process. The operating system is an
-- argument: whether the process starts, what it writes until it is dead, and which case of the
-- select is taken.
use codera.Base.{ℕ, Bool, true, false, ◌||◌, ◌&&◌, not, Option, none, some, List, [], Bytes}
use codera.Domain.{ExitCode, code}
use codera.Process.Writer.{new_bounded_writer, write_all}

-- A Go error from os/exec: an *exec.ExitError, or any other with its text.
pub data ProcessError : Type 0 where
  exit_error : ExitCode → ProcessError
  other_error : Bytes → ProcessError

-- The cases of the select: the timer, the end of the context, and the result of Wait.
pub data Ended : Type 0 where
  timer : Ended
  ctx_done : Ended
  waited : Option ProcessError → Ended

-- `parent_first` says that the parent context ended before any writer called cancel.
pub record Behaviour : Type 0 where
  pub start_error : Option ProcessError
  pub out_chunks : List Bytes
  pub err_chunks : List Bytes
  pub ended : Ended
  pub parent_first : Bool

pub record ProcessResult : Type 0 where
  pub stdout : Bytes
  pub stderr : Bytes
  pub exit_code : ExitCode
  pub timeout : Bool
  pub output_limit : Bool
  pub error : Option ProcessError

-- After the timer or the context the result of Wait is read and dropped.
abbrev exit_err : Ended → Option ProcessError
exit_err timer = none
exit_err ctx_done = none
exit_err (waited e) = e

abbrev timed_out : Ended → Bool
timed_out timer = true
timed_out _ = false

exit_code_of : Option ProcessError → ExitCode
exit_code_of none = code 0
exit_code_of (some (exit_error c)) = c
exit_code_of (some (other_error message)) = code 1

run_started : ℕ → ℕ → Behaviour → ProcessResult
unfolding exit_code_of
run_started stdout_limit stderr_limit b =
    let out = (write_all b.out_chunks (new_bounded_writer stdout_limit true)).0 in
    let err = (write_all b.err_chunks (new_bounded_writer stderr_limit true)).0 in
    let cause_is_limit = not b.parent_first && (out.canceled || err.canceled) in
    record {
      stdout = out.buf;
      stderr = err.buf;
      exit_code = exit_code_of (exit_err b.ended);
      timeout = timed_out b.ended;
      output_limit = out.exceeded || err.exceeded || cause_is_limit;
      error = exit_err b.ended;
    }

run_from : ℕ → ℕ → Behaviour → Option ProcessError → ProcessResult
unfolding run_started
run_from stdout_limit stderr_limit b (some e) = record {
  stdout = [];
  stderr = [];
  exit_code = code 0;
  timeout = false;
  output_limit = false;
  error = some e;
}
run_from stdout_limit stderr_limit b none = run_started stdout_limit stderr_limit b

unfoldable pub run_process : ℕ → ℕ → Behaviour → ProcessResult
unfolding run_from
run_process stdout_limit stderr_limit b = run_from stdout_limit stderr_limit b b.start_error
