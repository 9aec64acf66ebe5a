-- ===== src/Judge/Limits.antt =====
-- Theorems on the time limits that Judge meets: that of the problem and that of the compiler.
use codera.Base.{
  ℕ, ◌+◌, String, Bool, false, Option, none, some, List, [], ◌∷◌, ◌≡◌, refl, arith, Bytes, length,
}
use codera.Config.Numbers.{ℤ}
use codera.Domain.{
  ExecutionRequest, ExecutionResult, ExecutionStatus, Submission, Problem, TestCase,
  compilation_timeout,
}
use codera.Process.Run.{timer, run_process}
use codera.Sandbox.Profile.{Profile}
use codera.Sandbox.Container.{Arg, DockerReply, start_container, start_args}
use codera.Sandbox.Exec.{ExecOptions, exec, exec_args}
use codera.Sandbox.Classifier.{classify}
use codera.Language.Executor.{
  System, Compiled, compile_broken, bypassed, compiled, LanguageExecutor,
}
use codera.Language.Registry.{MapRegistry, get}
use codera.Judge.Comparator.{Floats, ComparatorRegistry}
use codera.Judge.Loop.{Host, judge_tests}
use codera.Judge.Engine.{
  limited, comparator_for, compile_rejects, run_tests, after_compile, in_container, in_workspace,
  validated, with_executor, with_tests, judge_body,
}
use codera.Execution.Service as ExecutionService
use codera.Execution.Service.{result}

abbrev pub with_time_limit : {Float : Type 0} → Problem Float → ℤ → Problem Float
with_time_limit p t = record p { time_limit_ms = t }

-- docker is not told the timeout of a profile.
start_container-limited :
    {Float : Type 0} (docker : List Arg → DockerReply) (path w : String) (p : Problem Float) (t : ℤ)
    (profile : Profile)
    → start_container docker path w (limited (with_time_limit p t) profile)
      ≡ start_container docker path w (limited p profile)
unfolding start_container start_args limited
start_container-limited docker path w p t profile = refl

module _ {Float : Type 0} (h : Host Float) (p : Problem Float) (t : ℤ) where
  judge_tests-time_limit :
      (compare : Bytes → Bytes → Bool) (e : LanguageExecutor) (profile : Profile) (w : String)
      (n : ℕ) (sub : Submission) (tcs : List TestCase)
      → judge_tests h compare e (limited (with_time_limit p t) profile) w n sub tcs
        ≡ judge_tests h compare e (limited p profile) w n sub tcs
  unfolding judge_tests
  judge_tests-time_limit compare e profile w n sub [] = refl
  judge_tests-time_limit compare e profile w n sub (tc ∷ tcs) = rw (
    judge_tests-time_limit compare e profile w (n + 1)
        (record sub { passed_test_cases = sub.passed_test_cases + 1 }) tcs,
    start_container-limited (h.docker (n + 1)) h.seccomp_path w p t profile,
  )

module _ (f : Floats) where
  open f use {Float}

  module _ (h : Host Float) (comparators : ComparatorRegistry) (languages : MapRegistry)
      (p : Problem Float) (t : ℤ) where
    run_tests-time_limit :
        (tests : List TestCase) (e : LanguageExecutor) (w : String) (sub : Submission)
        → run_tests f h comparators languages (with_time_limit p t) tests e w sub
          ≡ run_tests f h comparators languages p tests e w sub
    unfolding run_tests
    run_tests-time_limit tests e w sub =
        judge_tests-time_limit h p t (comparator_for f comparators p) e e.profile w 0 sub tests

    after_compile-time_limit :
        (tests : List TestCase) (e : LanguageExecutor) (w : String) (sub : Submission)
        (c : Compiled)
        → after_compile f h comparators languages (with_time_limit p t) tests e w sub c
          ≡ after_compile f h comparators languages p tests e w sub c
    unfolding after_compile
    after_compile-time_limit tests e w sub compile_broken = refl
    after_compile-time_limit tests e w sub bypassed = run_tests-time_limit tests e w sub
    after_compile-time_limit tests e w sub (compiled res) = rw (run_tests-time_limit tests e w sub)

    in_container-time_limit :
        (tests : List TestCase) (e : LanguageExecutor) (req : ExecutionRequest) (w : String)
        (sub : Submission) (o : Option String)
        → in_container f h comparators languages (with_time_limit p t) tests e req w sub o
          ≡ in_container f h comparators languages p tests e req w sub o
    unfolding in_container
    in_container-time_limit tests e req w sub none = refl
    in_container-time_limit tests e req w sub (some c) =
        rw (after_compile-time_limit tests e w sub (e.compile h.system h.writes req c))

    in_workspace-time_limit :
        (tests : List TestCase) (e : LanguageExecutor) (req : ExecutionRequest) (sub : Submission)
        (o : Option String)
        → in_workspace f h comparators languages (with_time_limit p t) tests e req sub o
          ≡ in_workspace f h comparators languages p tests e req sub o
    unfolding in_workspace
    in_workspace-time_limit tests e req sub none = refl
    in_workspace-time_limit tests e req sub (some w) = rw (
        in_container-time_limit tests e req w sub
          (start_container (h.docker 0) h.seccomp_path w e.profile))

    validated-time_limit :
        (tests : List TestCase) (e : LanguageExecutor) (req : ExecutionRequest) (sub : Submission)
        (o : Option Bytes)
        → validated f h comparators languages (with_time_limit p t) tests e req sub o
          ≡ validated f h comparators languages p tests e req sub o
    unfolding validated
    validated-time_limit tests e req sub none = in_workspace-time_limit tests e req sub h.workspace
    validated-time_limit tests e req sub (some message) = refl

    with_executor-time_limit :
        (tests : List TestCase) (sub : Submission) (o : Option LanguageExecutor)
        → with_executor f h comparators languages (with_time_limit p t) tests sub o
          ≡ with_executor f h comparators languages p tests sub o
    unfolding with_executor
    with_executor-time_limit tests sub none = refl
    with_executor-time_limit tests sub (some e) = validated-time_limit tests e _ sub _

    with_tests-time_limit :
        (sub : Submission) (o : Option (List TestCase))
        → with_tests f h comparators languages (with_time_limit p t) sub o
          ≡ with_tests f h comparators languages p sub o
    unfolding with_tests
    with_tests-time_limit sub none = refl
    with_tests-time_limit sub (some tests) =
        with_executor-time_limit tests (record sub { total_test_cases = length tests })
          (get sub.language languages)

    -- The time limit of a problem changes nothing: with any other limit Judge leaves the same
    -- submission, makes the same calls and returns the same error.
    time_limit_is_ignored :
        (sub : Submission)
        → judge_body f h comparators languages sub (some (with_time_limit p t))
          ≡ judge_body f h comparators languages sub (some p)
    unfolding judge_body
    time_limit_is_ignored sub = with_tests-time_limit sub h.test_cases

timer_not_rejected :
    (os : System) (container : String) (opts : ExecOptions)
    → (os (exec_args container opts) opts.stdin opts.timeout).start_error ≡ none
    → (os (exec_args container opts) opts.stdin opts.timeout).ended ≡ timer
    → (compile_rejects (exec os container opts) ≡ false)
      × ((classify (exec os container opts)).status ≡ ExecutionStatus.time_limit_exceeded)
unfolding exec run_process compile_rejects classify
timer_not_rejected os container opts s e = ground arith

module _ (f : Floats) where
  open f use {Float}

  -- A compiler that starts and runs into its timeout is not taken for a failure by Judge, which
  -- goes on to the tests, while the execution service reports COMPILATION_TIMEOUT for the same
  -- result.
  compile_timeout_goes_on :
      (h : Host Float) (comparators : ComparatorRegistry) (languages : MapRegistry)
      (p : Problem Float) (tests : List TestCase) (e : LanguageExecutor) (w : String)
      (sub : Submission) (x : ExecutionService.Host) (req : ExecutionRequest) (container : String)
      (opts : ExecOptions)
      → (h.system (exec_args container opts) opts.stdin opts.timeout).start_error ≡ none
      → (h.system (exec_args container opts) opts.stdin opts.timeout).ended ≡ timer
      → (after_compile f h comparators languages p tests e w sub
            (compiled (exec h.system container opts))
          ≡ run_tests f h comparators languages p tests e w sub)
        × ((r : ExecutionResult) × (ExecutionService.after_compile x e req container
                (compiled (exec h.system container opts))
              ≡ result r)
            × (r.status ≡ compilation_timeout))
  unfolding after_compile ExecutionService.after_compile
  compile_timeout_goes_on h comparators languages p tests e w sub x req container opts s t =
      let (kept, timed) = timer_not_rejected h.system container opts s t in
      (
        rw kept,
        (
          record (classify (exec h.system container opts)) { status = compilation_timeout },
          rw timed,
          refl,
        ),
      )
