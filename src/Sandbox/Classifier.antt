-- ===== src/Sandbox/Classifier.antt =====
-- backend/internal/sandbox/classifier/result.go.
use codera.Base.{
  ℕ, Bool, false, ◌||◌, not, Option, some, [], ◌++◌, Bytes, codes, if◌then◌else◌, ◌==◌, contains,
}
use codera.Domain.{
  ExitCode, code, minus_one, ExecutionResult, success, runtime_error, time_limit_exceeded,
  memory_limit_exceeded, output_limit_exceeded, internal_error,
}
use codera.Process.Run.{ProcessError, other_error}
use codera.Sandbox.Exec.{ExecResult}

abbrev pub is_code : ℕ → ExitCode → Bool
is_code n (code c) = c == n
is_code n minus_one = false

unfoldable pub mentions_memory : Bytes → Bool
mentions_memory stderr =
    contains stderr (codes "java.lang.OutOfMemoryError")
    || (contains stderr (codes "MemoryError") || contains stderr (codes "out of memory"))

classify_exit : ExecResult → ExecutionResult
classify_exit res =
    if is_code 137 res.exit_code
    then record {
      status = memory_limit_exceeded;
      stdout = res.stdout;
      stderr = codes "Memory Limit Exceeded";
      exit_code = code 137;
    }
    else if not (is_code 0 res.exit_code)
    then record {
      status = if mentions_memory res.stderr then memory_limit_exceeded else runtime_error;
      stdout = res.stdout;
      stderr = res.stderr;
      exit_code = res.exit_code;
    }
    else record { status = success; stdout = res.stdout; stderr = res.stderr; exit_code = code 0 }

classify_limits : ExecResult → ExecutionResult
unfolding classify_exit
classify_limits res =
    if res.timeout
    then record {
      status = time_limit_exceeded;
      stdout = res.stdout;
      stderr = res.stderr;
      exit_code = res.exit_code;
    }
    else if res.output_limit
    then record {
      status = output_limit_exceeded;
      stdout = res.stdout;
      stderr = res.stderr;
      exit_code = res.exit_code;
    }
    else classify_exit res

classify_error : ExecResult → Option ProcessError → ExecutionResult
unfolding classify_limits
classify_error res (some (other_error message)) = record {
  status = internal_error;
  stdout = [];
  stderr = codes "Internal Platform Error: " ++ message;
  exit_code = minus_one;
}
classify_error res _ = classify_limits res

unfoldable pub classify : ExecResult → ExecutionResult
unfolding classify_error
classify res = classify_error res res.error
