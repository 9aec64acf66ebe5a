-- ===== src/Judge/Loop.antt =====
-- backend/internal/judge/engine.go: the loop of Judge over the test cases, what it works on, and
-- the verdict of one run.
use codera.Base.{
  ℕ, ◌+◌, String, Bool, true, false, not, ◌||◌, Option, none, some, List, [], ◌∷◌, Bytes,
  if◌then◌else◌,
}
use codera.Analyzer
use codera.Analyzer.{Answer, analysis, panicked}
use codera.Domain.{Language, Submission, Verdict, Problem, TestCase}
use codera.Process.Run.{ProcessError}
use codera.Sandbox.Profile.{Profile}
use codera.Sandbox.Container.{Arg, DockerReply, start_container, ResourceCall, start, destroy}
use codera.Sandbox.Exec.{ExecResult}
use codera.Sandbox.Classifier.{is_code}
use codera.Language.Executor.{System, LanguageExecutor}

pub data JudgeError : Type 0 where
  no_submission no_problem no_test_cases unsupported no_workspace : JudgeError
  no_compile_sandbox compile_failed no_run_sandbox run_failed : JudgeError

-- How a call of Judge ends.
pub data JudgeEnd : Type 0 where
  returned : Option JudgeError → JudgeEnd
  unwound : JudgeEnd

-- `docker 0` starts the container of the compiler, `docker (n + 1)` that of the n-th test.
pub record Host (Float : Type 0) : Type 0 where
  pub submission : Option Submission
  pub problem : Option (Problem Float)
  pub test_cases : Option (List TestCase)
  pub workspace : Option String
  pub docker : ℕ → List Arg → DockerReply
  pub seccomp_path : String
  pub writes : Bool
  pub system : System
  pub analyzer : Option (Bytes → Language → Answer)
  pub clock : ℕ

-- The submission as the body leaves it, what it acquired and released, its error, and whether it
-- panics, which only the analyser does.
pub record Judged : Type 0 where
  pub sub : Submission
  pub calls : List ResourceCall
  pub error : Option JudgeError
  pub panics : Bool

abbrev pub with_verdict : Submission → Verdict → Submission
with_verdict sub v = record sub { verdict = v }

-- `sub.Verdict = VerdictInternalError; return err`
abbrev pub broken : Submission → JudgeError → Judged
broken sub e = record {
  sub = with_verdict sub Verdict.internal_error;
  calls = [];
  error = some e;
  panics = false;
}

-- `sub.Verdict = v; return nil`
abbrev pub stopped : Submission → Verdict → Judged
stopped sub v = record { sub = with_verdict sub v; calls = []; error = none; panics = false }

abbrev pub has_error : Option ProcessError → Bool
has_error none = false
has_error (some e) = true

-- The verdict of one test, `none` if it passes.
unfoldable pub test_verdict : (Bytes → Bytes → Bool) → Bytes → ExecResult → Option Verdict
test_verdict compare expected res =
    if res.timeout
    then some Verdict.time_limit_exceeded
    else if res.output_limit
    then some Verdict.output_limit_exceeded
    else if not (is_code 0 res.exit_code) || has_error res.error
    then some Verdict.runtime_error
    else if not (compare expected res.stdout)
    then some Verdict.wrong_answer
    else none

unfoldable pub with_answer : Submission → Answer → Submission
with_answer sub (analysis a) = record sub {
  ai_time_complexity = a.time_complexity;
  ai_space_complexity = a.space_complexity;
  ai_feedback = a.feedback;
}
with_answer sub (Answer.failed e) = sub
with_answer sub panicked = sub

-- `sub.Verdict = VerdictAccepted`, and then the analysis, which may panic.
unfoldable pub analyzed : Option (Bytes → Language → Answer) → Submission → Judged
unfolding with_answer
analyzed none sub = record { sub = sub; calls = []; error = none; panics = false }
analyzed (some ask) sub =
    let answer = ask sub.source_code sub.language in
    record {
      sub = with_answer sub answer;
      calls = [];
      error = none;
      panics = Analyzer.panics answer;
    }

-- After the loop: the statistics are never measured, and are 0.
unfoldable pub accept : Option (Bytes → Language → Answer) → Submission → Judged
unfolding analyzed
accept analyzer sub =
    analyzed analyzer
      (record sub { execution_time_ms = 0; memory_used_bytes = 0; verdict = Verdict.accepted })

-- The calls of one container around those of what follows.
abbrev pub within : String → Judged → Judged
within c j = record j { calls = start c ∷ destroy c ∷ j.calls }

-- What one round of the loop makes of the run in container `c`, where `rest` is the rest of the
-- loop with one more test passed.
unfoldable pub after_verdict : String → Submission → Judged → Option Verdict → Judged
after_verdict c sub rest (some v) = within c (stopped sub v)
after_verdict c sub rest none = within c rest

unfoldable pub after_run :
    (Bytes → Bytes → Bool) → TestCase → String → Submission → Judged → Option ExecResult → Judged
unfolding after_verdict
after_run compare tc c sub rest none = within c (broken sub run_failed)
after_run compare tc c sub rest (some res) =
    after_verdict c sub rest (test_verdict compare tc.expected_output res)

module _ {Float : Type 0} (h : Host Float) where
  unfoldable pub after_start :
      (Bytes → Bytes → Bool)
      → LanguageExecutor
      → TestCase
      → Submission
      → Judged
      → Option String
      → Judged
  unfolding after_run
  after_start compare e tc sub rest none = broken sub no_run_sandbox
  after_start compare e tc sub rest (some c) = after_run compare tc c sub rest (
      e.execute h.system
        (record { language = sub.language; source_code = sub.source_code; input = tc.input }) c)

  -- The loop over the test cases; `n` of them have passed.
  unfoldable pub judge_tests :
      (Bytes → Bytes → Bool)
      → LanguageExecutor
      → Profile
      → String
      → ℕ
      → Submission
      → List TestCase
      → Judged
  unfolding after_start accept
  judge_tests compare e profile w n sub [] = accept h.analyzer sub
  judge_tests compare e profile w n sub (tc ∷ tcs) =
      let rest =
        judge_tests compare e profile w (n + 1)
          (record sub { passed_test_cases = sub.passed_test_cases + 1 }) tcs in
      after_start compare e tc sub rest
        (start_container (h.docker (n + 1)) h.seccomp_path w profile)
