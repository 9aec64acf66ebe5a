-- ===== src/Execution/Phases.antt =====
-- Theorems on Execute of execution/service.go: the phases that its results come from, and its calls.
use codera.Base.{
  String, true, Option, none, some, [], ◌≡◌, ◌⊎◌, inl, inr, refl, arith, Bytes, Bool-cases,
}
use codera.Domain.{
  ExecutionRequest, ExecutionResult, ExecutionStatus, runtime_error, time_limit_exceeded, success,
}
use codera.Sandbox.Container.{
  start_container, nests, Balanced, Balanced-nil, Balanced-container, Balanced-workspace,
  Balanced-nests,
}
use codera.Sandbox.Exec.{ExecResult}
use codera.Sandbox.Classifier.{classify}
use codera.Language.Executor.{Compiled, compile_broken, bypassed, compiled, LanguageExecutor}
use codera.Language.Registry.{MapRegistry, get}
use codera.Execution.Service.{
  result, Host, execute, is_success, classify_run, run_phase, after_compile, in_container,
  in_workspace, validated, with_executor,
}

module _ (h : Host) (req : ExecutionRequest) where
  in_container-Balanced :
      (e : LanguageExecutor) (o : Option String) → Balanced (in_container h e req o).0
  unfolding in_container
  in_container-Balanced e none = Balanced-nil
  in_container-Balanced e (some c) = Balanced-container c [] Balanced-nil

  in_workspace-Balanced :
      (e : LanguageExecutor) (o : Option String) → Balanced (in_workspace h e req o).0
  unfolding in_workspace
  in_workspace-Balanced e none = Balanced-nil
  in_workspace-Balanced e (some w) =
      Balanced-workspace w _
        (in_container-Balanced e (start_container h.docker h.seccomp_path w e.profile))

  validated-Balanced : (e : LanguageExecutor) (o : Option Bytes) → Balanced (validated h e req o).0
  unfolding validated
  validated-Balanced e none = in_workspace-Balanced e h.workspace
  validated-Balanced e (some message) = Balanced-nil

  with_executor-Balanced : (o : Option LanguageExecutor) → Balanced (with_executor h req o).0
  unfolding with_executor
  with_executor-Balanced none = Balanced-nil
  with_executor-Balanced (some e) = validated-Balanced e (e.validate req)

-- Whatever fails, every workspace made is removed and every container started is destroyed, the
-- container first.
pub execute_releases :
    (h : Host) (registry : MapRegistry) (req : ExecutionRequest)
    → nests [] (execute h registry req).0 ≡ true
unfolding execute
execute_releases h registry req =
    Balanced-nests _ (with_executor-Balanced h req (get req.language registry))

-- What a status that the execute phase gives shows of a call.
abbrev OfRun : ExecutionStatus → Type 0
OfRun s = (s ≡ runtime_error) ⊎ (s ≡ time_limit_exceeded) ⊎ (s ≡ success)

module _ (h : Host) (req : ExecutionRequest) (r : ExecutionResult) where
  -- The execute phase gave the result, after a compile phase that came to `c`.
  abbrev pub RanAfter : LanguageExecutor → String → Compiled → Type 0
  RanAfter e container c =
      (res : ExecResult) × (e.execute h.system req container ≡ some res)
      × (r ≡ classify res)
      × ((c ≡ bypassed) ⊎ ((x : ExecResult) × (c ≡ compiled x) × ((classify x).status ≡ success)))

  ran_result :
      (o : Option ExecResult)
      → classify_run o ≡ result r
      → (res : ExecResult) × (o ≡ some res) × (r ≡ classify res)
  unfolding classify_run
  ran_result none p = cc
  ran_result (some res) p = (res, refl, ground arith)

  ran_phase :
      (e : LanguageExecutor) (container : String) (c : Compiled)
      → (c ≡ bypassed) ⊎ ((x : ExecResult) × (c ≡ compiled x) × ((classify x).status ≡ success))
      → run_phase h e req container ≡ result r
      → RanAfter e container c
  unfolding run_phase
  ran_phase e container c why p =
      let (res, o, q) = ran_result (e.execute h.system req container) p in (res, o, q, why)

  ran_after :
      (e : LanguageExecutor) (container : String) (c : Compiled)
      → after_compile h e req container c ≡ result r
      → OfRun r.status
      → RanAfter e container c
  unfolding after_compile
  ran_after e container compile_broken p s = cc
  ran_after e container bypassed p s = ran_phase e container bypassed (inl refl) p
  ran_after e container (compiled x) p s = elim (Bool-cases (is_success (classify x).status)) [
    | inl ok ↦ ran_phase e container (compiled x) (inr (x, refl, ground arith)) (rw (ok) at p)
    | inr no' ↦ absurd (ground (arith, p, s))
  ]

  -- The executor was found, accepted the request, and its execute phase gave the result.
  abbrev pub Ran : LanguageExecutor → Type 0
  Ran e = (container : String) × RanAfter e container (e.compile h.system h.writes req container)

  Ran-in_container :
      (e : LanguageExecutor) (o : Option String)
      → (in_container h e req o).1 ≡ result r
      → OfRun r.status
      → Ran e
  unfolding in_container
  Ran-in_container e none p s = cc
  Ran-in_container e (some c) p s = (c, ran_after e c (e.compile h.system h.writes req c) p s)

  Ran-in_workspace :
      (e : LanguageExecutor) (o : Option String)
      → (in_workspace h e req o).1 ≡ result r
      → OfRun r.status
      → Ran e
  unfolding in_workspace
  Ran-in_workspace e none p s = cc
  Ran-in_workspace e (some w) p s =
      Ran-in_container e (start_container h.docker h.seccomp_path w e.profile) p s

  Ran-validated :
      (e : LanguageExecutor) (o : Option Bytes)
      → (validated h e req o).1 ≡ result r
      → OfRun r.status
      → (o ≡ none) × Ran e
  unfolding validated
  Ran-validated e none p s = (refl, Ran-in_workspace e h.workspace p s)
  Ran-validated e (some message) p s = absurd (ground (arith, p, s))

  Ran-with_executor :
      (o : Option LanguageExecutor)
      → (with_executor h req o).1 ≡ result r
      → OfRun r.status
      → (e : LanguageExecutor) × (o ≡ some e) × (e.validate req ≡ none) × Ran e
  unfolding with_executor
  Ran-with_executor none p s = cc
  Ran-with_executor (some e) p s =
      let (valid, ran) = Ran-validated e (e.validate req) p s in (e, refl, valid, ran)

-- A result of status RUNTIME_ERROR, TIME_LIMIT_EXCEEDED or SUCCESS is the classified result of the
-- execute phase, in a container, of the executor registered for the language, which accepted the
-- request; and the compile phase before it in that container was passed over or succeeded.
pub run_status_is_of_run :
    (h : Host) (registry : MapRegistry) (req : ExecutionRequest) (r : ExecutionResult)
    → (execute h registry req).1 ≡ result r
    → (r.status ≡ runtime_error) ⊎ (r.status ≡ time_limit_exceeded) ⊎ (r.status ≡ success)
    → (e : LanguageExecutor) × (get req.language registry ≡ some e)
      × (e.validate req ≡ none)
      × Ran h req r e
unfolding execute
run_status_is_of_run h registry req r p s =
    Ran-with_executor h req r (get req.language registry) p s
