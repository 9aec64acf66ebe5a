-- ===== src/Execution/Service.antt =====
-- backend/internal/execution/service.go. What the service acquires and releases is listed; the
-- deferred calls stand at the end of the list, the last deferred first.
use codera.Base.{
  String, Bool, true, false, Option, none, some, List, [], ◌∷◌, ◌++◌, Bytes, codes, if◌then◌else◌,
}
use codera.Domain.{
  ExecutionRequest, ExecutionResult, ExecutionStatus, compilation_error, compilation_timeout,
  runtime_error, time_limit_exceeded, success, code,
}
use codera.Sandbox.Container.{
  Arg, DockerReply, start_container, ResourceCall, make_workspace, remove_workspace, start, destroy,
}
use codera.Sandbox.Exec.{ExecResult}
use codera.Sandbox.Classifier.{classify}
use codera.Language.Executor.{
  System, Compiled, compile_broken, bypassed, compiled, LanguageExecutor,
}
use codera.Language.Registry.{MapRegistry, get}

pub data ExecutionError : Type 0 where
  no_executor no_workspace no_sandbox compile_failed execute_failed : ExecutionError

pub data Executed : Type 0 where
  result : ExecutionResult → Executed
  failed : ExecutionError → Executed

-- What one call meets: the directory that MkdirTemp makes, docker and the path of the seccomp
-- profile, whether writing the source file succeeds, and the processes.
pub record Host : Type 0 where
  pub workspace : Option String
  pub docker : List Arg → DockerReply
  pub seccomp_path : String
  pub writes : Bool
  pub system : System

-- A failure of the compile phase under its own name.
unfoldable pub compile_status : ExecutionStatus → ExecutionStatus
compile_status runtime_error = compilation_error
compile_status time_limit_exceeded = compilation_timeout
compile_status s = s

abbrev pub is_success : ExecutionStatus → Bool
is_success success = true
is_success _ = false

unfoldable pub classify_run : Option ExecResult → Executed
classify_run none = failed execute_failed
classify_run (some res) = result (classify res)

unfoldable pub run_phase : Host → LanguageExecutor → ExecutionRequest → String → Executed
unfolding classify_run
run_phase h e req container = classify_run (e.execute h.system req container)

unfoldable pub after_compile :
    Host → LanguageExecutor → ExecutionRequest → String → Compiled → Executed
unfolding run_phase compile_status
after_compile h e req container compile_broken = failed compile_failed
after_compile h e req container bypassed = run_phase h e req container
after_compile h e req container (compiled res) =
    let c = classify res in
    if is_success c.status
    then run_phase h e req container
    else result (record c { status = compile_status c.status })

unfoldable pub in_container :
    Host → LanguageExecutor → ExecutionRequest → Option String → List ResourceCall × Executed
unfolding after_compile
in_container h e req none = ([], failed no_sandbox)
in_container h e req (some container) = (
  start container ∷ destroy container ∷ [],
  after_compile h e req container (e.compile h.system h.writes req container),
)

unfoldable pub in_workspace :
    Host → LanguageExecutor → ExecutionRequest → Option String → List ResourceCall × Executed
unfolding in_container
in_workspace h e req none = ([], failed no_workspace)
in_workspace h e req (some w) =
    let (calls, r) = in_container h e req (start_container h.docker h.seccomp_path w e.profile) in
    (make_workspace w ∷ calls ++ remove_workspace w ∷ [], r)

unfoldable pub validated :
    Host → LanguageExecutor → ExecutionRequest → Option Bytes → List ResourceCall × Executed
unfolding in_workspace
validated h e req (some message) = (
  [],
  result (record {
    status = compilation_error;
    stdout = [];
    stderr = codes "Validation Error: " ++ message;
    exit_code = code 0;
  }),
)
validated h e req none = in_workspace h e req h.workspace

unfoldable pub with_executor :
    Host → ExecutionRequest → Option LanguageExecutor → List ResourceCall × Executed
unfolding validated
with_executor h req none = ([], failed no_executor)
with_executor h req (some e) = validated h e req (e.validate req)

unfoldable pub execute : Host → MapRegistry → ExecutionRequest → List ResourceCall × Executed
unfolding with_executor
execute h registry req = with_executor h req (get req.language registry)
