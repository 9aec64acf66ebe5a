-- ===== src/Judge/Finish.antt =====
-- The invariant of the body of Judge, and that the loop over the test cases keeps it.
use codera.Base.{
  ℕ, ◌+◌, String, Bool, Option, none, some, List, [], ◌∷◌, ◌≡◌, ◌≢◌, refl, sym, ◌∙◌, arith, Bytes,
}
use codera.Domain.{Language, Submission, Verdict, TestCase}
use codera.Sandbox.Profile.{Profile}
use codera.Sandbox.Container.{
  start_container, ResourceCall, start, destroy, Balanced, Balanced-nil, Balanced-append,
  Balanced-container,
}
use codera.Sandbox.Exec.{ExecResult}
use codera.Language.Executor.{LanguageExecutor}
use codera.Analyzer.{Answer, analysis, failed, panicked}
use codera.Judge.Loop.{
  JudgeError, with_answer, Host, Judged, broken, stopped, test_verdict, analyzed, accept,
  after_verdict, after_run, after_start, judge_tests,
}

-- A result of the body: the same submission, still running, with a verdict, which is
-- INTERNAL_ERROR if there is an error; the calls balanced.
pub record IsJudged (sub : Submission) (j : Judged) : Type 0 where
  pub same : j.sub.id ≡ sub.id
  pub status : j.sub.status ≡ sub.status
  pub verdict : j.sub.verdict ≢ Verdict.pending
  pub internal : (e : JudgeError) → j.error ≡ some e → j.sub.verdict ≡ Verdict.internal_error
  pub calls : Balanced j.calls

pub broken-IsJudged : (sub : Submission) (e : JudgeError) → IsJudged sub (broken sub e)
broken-IsJudged sub e = record {
  same = refl;
  status = refl;
  verdict = λ p. cc;
  internal = λ e' p. refl;
  calls = Balanced-nil;
}

pub stopped-IsJudged :
    (sub : Submission) (v : Verdict) → v ≢ Verdict.pending → IsJudged sub (stopped sub v)
stopped-IsJudged sub v h = record {
  same = refl;
  status = refl;
  verdict = h;
  internal = λ e p. cc;
  calls = Balanced-nil;
}

-- The analysis changes neither the submission's state nor its verdict.
pub with_answer_keeps :
    (sub : Submission) (a : Answer)
    → ((with_answer sub a).id ≡ sub.id)
      × ((with_answer sub a).status ≡ sub.status)
      × ((with_answer sub a).verdict ≡ sub.verdict)
      × ((with_answer sub a).passed_test_cases ≡ sub.passed_test_cases)
unfolding with_answer
with_answer_keeps sub (analysis a) = (refl, refl, refl, refl)
with_answer_keeps sub (failed e) = (refl, refl, refl, refl)
with_answer_keeps sub panicked = (refl, refl, refl, refl)

accept-IsJudged :
    (a : Option (Bytes → Language → Answer)) (sub : Submission) → IsJudged sub (accept a sub)
unfolding accept analyzed
accept-IsJudged none sub = record {
  same = refl;
  status = refl;
  verdict = λ p. cc;
  internal = λ e p. cc;
  calls = Balanced-nil;
}
accept-IsJudged (some ask) sub =
    let judged = record sub {
      execution_time_ms = 0;
      memory_used_bytes = 0;
      verdict = Verdict.accepted;
    } in
    let kept = with_answer_keeps judged (ask sub.source_code sub.language) in
    record {
      same = kept.0;
      status = kept.1;
      verdict = λ p. let q : Verdict.accepted ≡ Verdict.pending = sym kept.2 ∙ p in cc;
      internal = λ e p. cc;
      calls = Balanced-nil;
    }

-- Calls put around a result leave the rest of it.
pub around-IsJudged :
    (sub : Submission) (j : Judged) (calls : List ResourceCall)
    → Balanced calls
    → IsJudged sub j
    → IsJudged sub (record j { calls = calls })
around-IsJudged sub j calls b h = record {
  same = h.same;
  status = h.status;
  verdict = h.verdict;
  internal = h.internal;
  calls = b;
}

test_verdict-ne-pending :
    (compare : Bytes → Bytes → Bool) (expected : Bytes) (res : ExecResult) (v : Verdict)
    → test_verdict compare expected res ≡ some v
    → v ≢ Verdict.pending
unfolding test_verdict
test_verdict-ne-pending compare expected res v h p = ground (arith, h, p)

-- One more container around a result.
within-Balanced :
    (c : String) (calls : List ResourceCall)
    → Balanced calls
    → Balanced (start c ∷ destroy c ∷ calls)
within-Balanced c calls h =
    Balanced-append (start c ∷ destroy c ∷ []) calls (Balanced-container c [] Balanced-nil) h

module _ (compare : Bytes → Bytes → Bool) (tc : TestCase) (c : String) (sub : Submission)
    (rest : Judged) (h : IsJudged sub rest) where
  after_verdict-IsJudged :
      (o : Option Verdict)
      → ((v : Verdict) → o ≡ some v → v ≢ Verdict.pending)
      → IsJudged sub (after_verdict c sub rest o)
  unfolding after_verdict
  after_verdict-IsJudged none k =
      around-IsJudged sub rest _ (within-Balanced c rest.calls h.calls) h
  after_verdict-IsJudged (some v) k =
      around-IsJudged sub (stopped sub v) _ (within-Balanced c [] Balanced-nil)
        (stopped-IsJudged sub v (k v refl))

  after_run-IsJudged : (o : Option ExecResult) → IsJudged sub (after_run compare tc c sub rest o)
  unfolding after_run
  after_run-IsJudged none =
      around-IsJudged sub (broken sub JudgeError.run_failed) _ (within-Balanced c [] Balanced-nil)
        (broken-IsJudged sub JudgeError.run_failed)
  after_run-IsJudged (some res) =
      after_verdict-IsJudged (test_verdict compare tc.expected_output res)
        (test_verdict-ne-pending compare tc.expected_output res)

counted-IsJudged :
    (sub : Submission) (n : ℕ) (j : Judged)
    → IsJudged (record sub { passed_test_cases = n }) j
    → IsJudged sub j
counted-IsJudged sub n j h = record {
  same = h.same;
  status = h.status;
  verdict = h.verdict;
  internal = h.internal;
  calls = h.calls;
}

module _ {Float : Type 0} (h : Host Float) where
  after_start-IsJudged :
      (compare : Bytes → Bytes → Bool) (e : LanguageExecutor) (tc : TestCase) (sub : Submission)
      (rest : Judged) (o : Option String)
      → IsJudged sub rest
      → IsJudged sub (after_start h compare e tc sub rest o)
  unfolding after_start
  after_start-IsJudged compare e tc sub rest none k = broken-IsJudged sub JudgeError.no_run_sandbox
  after_start-IsJudged compare e tc sub rest (some c) k =
      after_run-IsJudged compare tc c sub rest k _

  pub judge_tests-IsJudged :
      (compare : Bytes → Bytes → Bool) (e : LanguageExecutor) (profile : Profile) (w : String)
      (n : ℕ) (sub : Submission) (tcs : List TestCase)
      → IsJudged sub (judge_tests h compare e profile w n sub tcs)
  unfolding judge_tests
  judge_tests-IsJudged compare e profile w n sub [] = accept-IsJudged h.analyzer sub
  judge_tests-IsJudged compare e profile w n sub (tc ∷ tcs) =
      after_start-IsJudged compare e tc sub _
        (start_container (h.docker (n + 1)) h.seccomp_path w profile)
        (counted-IsJudged sub (sub.passed_test_cases + 1) _ (
          judge_tests-IsJudged compare e profile w (n + 1)
            (record sub { passed_test_cases = sub.passed_test_cases + 1 }) tcs))
