-- ===== src/Language/Executor.antt =====
-- backend/internal/language/executor.go: the interface, as a record of functions.
use codera.Base.{String, Bool, Option, List, Bytes}
use codera.Config.Numbers.{ℤ}
use codera.Domain.{Language, ExecutionRequest}
use codera.Process.Run.{Behaviour}
use codera.Sandbox.Profile.{Profile}
use codera.Sandbox.Exec.{ExecResult}

-- How a command line in a container behaves, by its arguments, input and timeout.
abbrev pub System : Type 0
System = List String → Option Bytes → ℤ → Behaviour

-- Compile returns an error, nil (nothing to compile), or a result.
pub data Compiled : Type 0 where
  compile_broken bypassed : Compiled
  compiled : ExecResult → Compiled

-- An error of Validate is its text. `writes` says whether os.WriteFile succeeds in the workspace.
-- Execute returns `none` for an error.
pub record LanguageExecutor : Type 0 where
  pub language : Language
  pub profile : Profile
  pub validate : ExecutionRequest → Option Bytes
  pub compile : System → Bool → ExecutionRequest → String → Compiled
  pub execute : System → ExecutionRequest → String → Option ExecResult
