-- ===== src/Judge/Engine.antt =====
-- backend/internal/judge/engine.go: Judge. What it saves, acquires and releases is listed. The
-- repositories, docker, the processes, the comparators' floats and the analyser are arguments;
-- errors of Update and of publishing are ignored, as in the source. Of panics only the analyser's
-- is modelled; the deferred calls are made in it too.
use codera.Base.{
  ◌*◌, String, Bool, not, ◌||◌, Option, none, some, List, [], ◌∷◌, ◌++◌, Bytes, if◌then◌else◌,
  length,
}
use codera.Config.Numbers.{times}
use codera.Domain.{
  ExecutionRequest, Submission, SubmissionStatus, Verdict, Problem, TestCase, ComparisonMode,
  float_epsilon,
}
use codera.Sandbox.Profile.{Profile}
use codera.Sandbox.Container.{
  start_container, ResourceCall, make_workspace, remove_workspace, start, destroy,
}
use codera.Sandbox.Exec.{ExecResult}
use codera.Sandbox.Classifier.{is_code}
use codera.Language.Executor.{Compiled, compile_broken, bypassed, compiled, LanguageExecutor}
use codera.Language.Registry.{MapRegistry, get}
use codera.Judge.Comparator.{Floats, ComparatorRegistry, get_comparator, compare_by, compare_float}
use codera.Judge.Loop.{
  JudgeEnd, returned, unwound, no_submission, no_problem, no_test_cases, unsupported, no_workspace,
  no_compile_sandbox, compile_failed, Host, Judged, broken, stopped, has_error, judge_tests,
}

-- The deferred calls do not stop a panic.
abbrev pub ending : Judged → JudgeEnd
ending j = if j.panics then unwound else returned j.error

abbrev completed_if_running : SubmissionStatus → SubmissionStatus
completed_if_running SubmissionStatus.running = SubmissionStatus.completed
completed_if_running s = s

-- The profile with the limits of the problem.
unfoldable pub limited : {Float : Type 0} → Problem Float → Profile → Profile
limited p profile = record profile {
  memory_limit_bytes = times p.memory_limit_mb (1024 * 1024);
  timeout = times p.time_limit_ms 1000;
}

unfoldable pub compile_rejects : ExecResult → Bool
compile_rejects res = has_error res.error || not (is_code 0 res.exit_code)

module _ (f : Floats) where
  open f use {Float}

  unfoldable pub by_mode : ComparatorRegistry → Float → ComparisonMode → Bytes → Bytes → Bool
  by_mode registry epsilon float_epsilon = compare_float f epsilon
  by_mode registry epsilon mode = compare_by (get_comparator mode registry)

  -- The comparator of a problem.
  unfoldable pub comparator_for : ComparatorRegistry → Problem Float → Bytes → Bytes → Bool
  unfolding by_mode
  comparator_for registry p = by_mode registry p.float_epsilon p.comparison_mode

  module _ (h : Host Float) (comparators : ComparatorRegistry) (languages : MapRegistry) where
    unfoldable pub run_tests :
        Problem Float → List TestCase → LanguageExecutor → String → Submission → Judged
    unfolding comparator_for limited
    run_tests p tests e w sub =
        judge_tests h (comparator_for comparators p) e (limited p e.profile) w 0 sub tests

    unfoldable pub after_compile :
        Problem Float → List TestCase → LanguageExecutor → String → Submission → Compiled → Judged
    unfolding run_tests compile_rejects
    after_compile p tests e w sub compile_broken = broken sub compile_failed
    after_compile p tests e w sub bypassed = run_tests p tests e w sub
    after_compile p tests e w sub (compiled res) =
        if compile_rejects res
        then stopped sub Verdict.compilation_error
        else run_tests p tests e w sub

    -- The container of the compiler is destroyed when Judge returns.
    unfoldable pub in_container :
        Problem Float
        → List TestCase
        → LanguageExecutor
        → ExecutionRequest
        → String
        → Submission
        → Option String
        → Judged
    unfolding after_compile
    in_container p tests e req w sub none = broken sub no_compile_sandbox
    in_container p tests e req w sub (some c) =
        let j = after_compile p tests e w sub (e.compile h.system h.writes req c) in
        record j { calls = start c ∷ j.calls ++ destroy c ∷ [] }

    unfoldable pub in_workspace :
        Problem Float
        → List TestCase
        → LanguageExecutor
        → ExecutionRequest
        → Submission
        → Option String
        → Judged
    unfolding in_container
    in_workspace p tests e req sub none = broken sub no_workspace
    in_workspace p tests e req sub (some w) =
        let j =
          in_container p tests e req w sub
            (start_container (h.docker 0) h.seccomp_path w e.profile) in
        record j { calls = make_workspace w ∷ j.calls ++ remove_workspace w ∷ [] }

    unfoldable pub validated :
        Problem Float
        → List TestCase
        → LanguageExecutor
        → ExecutionRequest
        → Submission
        → Option Bytes
        → Judged
    unfolding in_workspace
    validated p tests e req sub (some message) = stopped sub Verdict.compilation_error
    validated p tests e req sub none = in_workspace p tests e req sub h.workspace

    request_of : Submission → ExecutionRequest
    request_of sub = record { language = sub.language; source_code = sub.source_code; input = [] }

    unfoldable pub with_executor :
        Problem Float → List TestCase → Submission → Option LanguageExecutor → Judged
    unfolding validated request_of
    with_executor p tests sub none = broken sub unsupported
    with_executor p tests sub (some e) =
        validated p tests e (request_of sub) sub (e.validate (request_of sub))

    unfoldable pub with_tests : Problem Float → Submission → Option (List TestCase) → Judged
    unfolding with_executor
    with_tests p sub none = broken sub no_test_cases
    with_tests p sub (some tests) =
        let sub' = record sub { total_test_cases = length tests } in
        with_executor p tests sub' (get sub.language languages)

    -- The body of Judge, from the submission set to RUNNING.
    unfoldable pub judge_body : Submission → Option (Problem Float) → Judged
    unfolding with_tests
    judge_body sub none = broken sub no_problem
    judge_body sub (some p) = with_tests p sub h.test_cases

    -- The deferred function: what it saves.
    unfoldable pub finalize : Submission → Submission
    finalize sub = record sub {
      completed_at = some h.clock;
      status = completed_if_running sub.status;
    }

    unfoldable pub judge_found : Option Submission → List Submission × List ResourceCall × JudgeEnd
    unfolding judge_body finalize
    judge_found none = ([], [], returned (some no_submission))
    judge_found (some sub) =
        let sub' = record sub { status = SubmissionStatus.running } in
        let j = judge_body sub' h.problem in (sub' ∷ finalize j.sub ∷ [], j.calls, ending j)

    -- The submissions saved and published, in order; the calls; how the call ends.
    unfoldable pub judge : List Submission × List ResourceCall × JudgeEnd
    unfolding judge_found
    judge = judge_found h.submission
