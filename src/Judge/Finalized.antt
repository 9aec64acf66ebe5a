-- ===== src/Judge/Finalized.antt =====
-- Theorems on Judge of judge/engine.go as a whole: what it saves and releases.
use codera.Base.{
  ℕ, String, true, Option, none, some, List, [], ◌∷◌, ◌≡◌, ◌≢◌, refl, sym, subst, arith, Bytes,
  Bool-cases, inl, inr, length,
}
use codera.Domain.{ExecutionRequest, Submission, SubmissionStatus, Verdict, Problem, TestCase}
use codera.Sandbox.Container.{
  ResourceCall, start_container, nests, Balanced-container, Balanced-workspace, Balanced-nests,
}
use codera.Language.Executor.{Compiled, compile_broken, bypassed, compiled, LanguageExecutor}
use codera.Language.Registry.{MapRegistry, get}
use codera.Judge.Comparator.{Floats, ComparatorRegistry}
use codera.Judge.Loop.{JudgeEnd, returned, JudgeError, Host, Judged}
use codera.Judge.Engine.{
  compile_rejects, run_tests, after_compile, in_container, in_workspace, validated, with_executor,
  with_tests, judge_body, finalize, ending, judge_found, judge,
}
use codera.Judge.Finish.{
  IsJudged, broken-IsJudged, stopped-IsJudged, around-IsJudged, judge_tests-IsJudged,
}

-- An error that Judge returns is that of its body.
ending-error : (j : Judged) (e : JudgeError) → ending j ≡ returned (some e) → j.error ≡ some e
ending-error j e h = ground (arith, h)

-- What Judge returns of a submission that is there: it saved it as running and then as completed.
abbrev pub Finalizes : ℕ → Submission → List Submission × List ResourceCall × JudgeEnd → Type 0
Finalizes clock sub out =
    (first : Submission) × (last : Submission) × (out.0 ≡ first ∷ last ∷ [])
    × ((first.id ≡ sub.id) × (first.status ≡ SubmissionStatus.running))
    × ((last.id ≡ sub.id) × (last.status ≡ SubmissionStatus.completed))
    × (last.completed_at ≡ some clock)
    × (last.verdict ≢ Verdict.pending)
    × ((e : JudgeError) → out.2 ≡ returned (some e) → last.verdict ≡ Verdict.internal_error)
    × (nests [] out.1 ≡ true)

module _ (f : Floats) where
  open f use {Float}

  module _ (h : Host Float) (comparators : ComparatorRegistry) (languages : MapRegistry)
      (p : Problem Float) where
    run_tests-IsJudged :
        (tests : List TestCase) (e : LanguageExecutor) (w : String) (sub : Submission)
        → IsJudged sub (run_tests f h comparators languages p tests e w sub)
    unfolding run_tests
    run_tests-IsJudged tests e w sub = judge_tests-IsJudged h _ e _ w 0 sub tests

    after_compile-IsJudged :
        (tests : List TestCase) (e : LanguageExecutor) (w : String) (sub : Submission)
        (c : Compiled)
        → IsJudged sub (after_compile f h comparators languages p tests e w sub c)
    unfolding after_compile
    after_compile-IsJudged tests e w sub compile_broken = broken-IsJudged sub _
    after_compile-IsJudged tests e w sub bypassed = run_tests-IsJudged tests e w sub
    after_compile-IsJudged tests e w sub (compiled res) = elim (Bool-cases (compile_rejects res)) [
      | inl r ↦ rw r (stopped-IsJudged sub Verdict.compilation_error (λ q. cc))
      | inr r ↦ rw r (run_tests-IsJudged tests e w sub)
    ]

    in_container-IsJudged :
        (tests : List TestCase) (e : LanguageExecutor) (req : ExecutionRequest) (w : String)
        (sub : Submission) (o : Option String)
        → IsJudged sub (in_container f h comparators languages p tests e req w sub o)
    unfolding in_container
    in_container-IsJudged tests e req w sub none = broken-IsJudged sub _
    in_container-IsJudged tests e req w sub (some c) =
        let j = after_compile-IsJudged tests e w sub (e.compile h.system h.writes req c) in
        around-IsJudged sub _ _ (Balanced-container c _ j.calls) j

    in_workspace-IsJudged :
        (tests : List TestCase) (e : LanguageExecutor) (req : ExecutionRequest) (sub : Submission)
        (o : Option String)
        → IsJudged sub (in_workspace f h comparators languages p tests e req sub o)
    unfolding in_workspace
    in_workspace-IsJudged tests e req sub none = broken-IsJudged sub _
    in_workspace-IsJudged tests e req sub (some w) =
        let j =
          in_container-IsJudged tests e req w sub
            (start_container (h.docker 0) h.seccomp_path w e.profile) in
        around-IsJudged sub _ _ (Balanced-workspace w _ j.calls) j

    validated-IsJudged :
        (tests : List TestCase) (e : LanguageExecutor) (req : ExecutionRequest) (sub : Submission)
        (o : Option Bytes)
        → IsJudged sub (validated f h comparators languages p tests e req sub o)
    unfolding validated
    validated-IsJudged tests e req sub (some message) =
        stopped-IsJudged sub Verdict.compilation_error (λ q. cc)
    validated-IsJudged tests e req sub none = in_workspace-IsJudged tests e req sub h.workspace

    with_executor-IsJudged :
        (tests : List TestCase) (sub : Submission) (o : Option LanguageExecutor)
        → IsJudged sub (with_executor f h comparators languages p tests sub o)
    unfolding with_executor
    with_executor-IsJudged tests sub none = broken-IsJudged sub _
    with_executor-IsJudged tests sub (some e) = validated-IsJudged tests e _ sub (e.validate _)

    totaled-IsJudged :
        (sub : Submission) (n : ℕ) (j : Judged)
        → IsJudged (record sub { total_test_cases = n }) j
        → IsJudged sub j
    totaled-IsJudged sub n j k = record {
      same = k.same;
      status = k.status;
      verdict = k.verdict;
      internal = k.internal;
      calls = k.calls;
    }

    with_tests-IsJudged :
        (sub : Submission) (o : Option (List TestCase))
        → IsJudged sub (with_tests f h comparators languages p sub o)
    unfolding with_tests
    with_tests-IsJudged sub none = broken-IsJudged sub _
    with_tests-IsJudged sub (some tests) = totaled-IsJudged sub (length tests) _ (
        with_executor-IsJudged tests (record sub { total_test_cases = length tests })
          (get sub.language languages))

  module _ (h : Host Float) (comparators : ComparatorRegistry) (languages : MapRegistry) where
    judge_body-IsJudged :
        (sub : Submission) (o : Option (Problem Float))
        → IsJudged sub (judge_body f h comparators languages sub o)
    unfolding judge_body
    judge_body-IsJudged sub none = broken-IsJudged sub _
    judge_body-IsJudged sub (some p) =
        with_tests-IsJudged h comparators languages p sub h.test_cases

    judge_found-Finalizes :
        (sub : Submission)
        → Finalizes h.clock sub (judge_found f h comparators languages (some sub))
    unfolding judge_found
    judge_found-Finalizes sub =
        let sub' = record sub { status = SubmissionStatus.running } in
        let j = judge_body-IsJudged sub' h.problem in
        (
          sub',
          finalize f h comparators languages
              (judge_body f h comparators languages sub' h.problem).sub,
          refl,
          (refl, refl),
          (j.same, ground (arith, j.status)),
          refl,
          j.verdict,
          λ e q.
              j.internal e (ending-error (judge_body f h comparators languages sub' h.problem) e q),
          Balanced-nests _ j.calls,
        )

    -- Judge saves a submission that is there twice: first as running, and last, whatever happens
    -- in between, as completed at the time of the clock, with a verdict other than PENDING, which
    -- is INTERNAL_ERROR if Judge returns an error. Every workspace made is removed and every
    -- container started is destroyed, the last acquired first.
    pub judge-Finalizes :
        (sub : Submission)
        → h.submission ≡ some sub
        → Finalizes h.clock sub (judge f h comparators languages)
    unfolding judge
    judge-Finalizes sub found =
        subst (λ o. Finalizes h.clock sub (judge_found f h comparators languages o)) (sym found)
          (judge_found-Finalizes sub)
