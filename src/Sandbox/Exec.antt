-- ===== src/Sandbox/Exec.antt =====
-- backend/internal/sandbox/sandbox.go, and Exec of backend/internal/sandbox/docker/runtime.go: a
-- command in a container is a process `docker exec`.
use codera.Base.{ℕ, String, Bool, Option, List, [], ◌∷◌, ◌++◌, Bytes}
use codera.Config.Numbers.{ℤ}
use codera.Domain.{ExitCode}
use codera.Process.Run.{ProcessError, Behaviour, run_process}

pub record ExecOptions : Type 0 where
  pub command : String
  pub args : List String
  pub stdin : Option Bytes
  pub stdout_limit : ℕ
  pub stderr_limit : ℕ
  pub timeout : ℤ

pub record ExecResult : Type 0 where
  pub stdout : Bytes
  pub stderr : Bytes
  pub exit_code : ExitCode
  pub timeout : Bool
  pub output_limit : Bool
  pub error : Option ProcessError

-- The command line after "docker".
unfoldable pub exec_args : String → ExecOptions → List String
exec_args container opts =
    ("exec" ∷ "-i" ∷ "--user" ∷ "1000:1000" ∷ "-w" ∷ "/workspace" ∷ container ∷ opts.command ∷ [])
    ++ opts.args

-- `os` is how the process with a command line, an input and a timeout behaves.
unfoldable pub exec :
    (List String → Option Bytes → ℤ → Behaviour) → String → ExecOptions → ExecResult
exec os container opts =
    let res =
      run_process opts.stdout_limit opts.stderr_limit
        (os (exec_args container opts) opts.stdin opts.timeout) in
    record {
      stdout = res.stdout;
      stderr = res.stderr;
      exit_code = res.exit_code;
      timeout = res.timeout;
      output_limit = res.output_limit;
      error = res.error;
    }
