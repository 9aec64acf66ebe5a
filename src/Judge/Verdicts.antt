-- ===== src/Judge/Verdicts.antt =====
-- Theorems on the loop of Judge over the test cases: verdicts and counts.
use codera.Base.{
  ℕ, suc, ◌+◌, String, Bool, Option, none, some, List, [], ◌∷◌, ◌≡◌, ◌≢◌, refl, ap, ◌∙◌, arith,
  Bytes, length,
}
use codera.Domain.{Language, Submission, Verdict, TestCase}
use codera.Sandbox.Profile.{Profile}
use codera.Sandbox.Container.{start_container}
use codera.Sandbox.Exec.{ExecResult}
use codera.Language.Executor.{LanguageExecutor}
use codera.Analyzer.{Answer}
use codera.Judge.Finish.{with_answer_keeps}
use codera.Judge.Loop.{
  Host, Judged, analyzed, accept, test_verdict, after_verdict, after_run, after_start, judge_tests,
}

module _ {Float : Type 0} (h : Host Float) (compare : Bytes → Bytes → Bool) (e : LanguageExecutor)
    (profile : Profile) (w : String) (lang : Language) (source : Bytes) where
  run_outcome : TestCase → Option ExecResult → Option Verdict
  run_outcome tc none = some Verdict.internal_error
  run_outcome tc (some res) = test_verdict compare tc.expected_output res

  start_outcome : TestCase → Option String → Option Verdict
  unfolding run_outcome
  start_outcome tc none = some Verdict.internal_error
  start_outcome tc (some c) =
      run_outcome tc
        (e.execute h.system (record { language = lang; source_code = source; input = tc.input }) c)

  -- The verdict of the n-th test on its own, in its own container; `none` if it passes.
  pub outcome : ℕ → TestCase → Option Verdict
  unfolding start_outcome
  outcome n tc = start_outcome tc (start_container (h.docker (n + 1)) h.seccomp_path w profile)

  -- How a list of tests, the first of them the n-th, comes out: all pass, or some pass and the
  -- next one has a verdict. The index counts the tests that pass before that.
  pub data Decided : ℕ → List TestCase → ℕ → Verdict → Type 0 where
    all_pass : {n : ℕ} → Decided n [] 0 Verdict.accepted
    fails :
        {n : ℕ} {tc : TestCase} {tcs : List TestCase} {v : Verdict}
        → outcome n tc ≡ some v
        → Decided n (tc ∷ tcs) 0 v
    passes :
        {n k : ℕ} {tc : TestCase} {tcs : List TestCase} {v : Verdict}
        → outcome n tc ≡ none
        → Decided (n + 1) tcs k v
        → Decided n (tc ∷ tcs) (suc k) v

accept-fields :
    (a : Option (Bytes → Language → Answer)) (sub : Submission)
    → ((accept a sub).sub.verdict ≡ Verdict.accepted)
      × ((accept a sub).sub.passed_test_cases ≡ sub.passed_test_cases)
unfolding accept analyzed
accept-fields none sub = (refl, refl)
accept-fields (some ask) sub =
    let judged = record sub {
      execution_time_ms = 0;
      memory_used_bytes = 0;
      verdict = Verdict.accepted;
    } in
    let kept = with_answer_keeps judged (ask sub.source_code sub.language) in (kept.2, kept.3)

-- The verdict and the count that a round leaves, by the outcome of its test.
abbrev Left : Submission → Judged → Judged → Option Verdict → Type 0
Left sub rest j none =
    (j.sub.verdict ≡ rest.sub.verdict) × (j.sub.passed_test_cases ≡ rest.sub.passed_test_cases)
Left sub rest j (some v) = (j.sub.verdict ≡ v) × (j.sub.passed_test_cases ≡ sub.passed_test_cases)

module _ {Float : Type 0} (h : Host Float) (compare : Bytes → Bytes → Bool) (e : LanguageExecutor)
    (profile : Profile) (w : String) where
  after_verdict-Left :
      (c : String) (sub : Submission) (rest : Judged) (o : Option Verdict)
      → Left sub rest (after_verdict c sub rest o) o
  unfolding after_verdict
  after_verdict-Left c sub rest none = (refl, refl)
  after_verdict-Left c sub rest (some v) = (refl, refl)

  after_run-Left :
      (tc : TestCase) (c : String) (sub : Submission) (rest : Judged) (o : Option ExecResult)
      → Left sub rest
          (after_run compare tc c sub rest o)
          (run_outcome h compare e profile w sub.language sub.source_code tc o)
  unfolding after_run run_outcome
  after_run-Left tc c sub rest none = (refl, refl)
  after_run-Left tc c sub rest (some res) =
      after_verdict-Left c sub rest (test_verdict compare tc.expected_output res)

  after_start-Left :
      (tc : TestCase) (sub : Submission) (rest : Judged) (o : Option String)
      → Left sub rest
          (after_start h compare e tc sub rest o)
          (start_outcome h compare e profile w sub.language sub.source_code tc o)
  unfolding after_start start_outcome
  after_start-Left tc sub rest none = (refl, refl)
  after_start-Left tc sub rest (some c) = after_run-Left tc c sub rest _

  -- What is claimed of a loop from the n-th test that leaves `j`.
  abbrev IsDecided : ℕ → Submission → List TestCase → Judged → Type 0
  IsDecided n sub tcs j =
      (k : ℕ) × Decided h compare e profile w sub.language sub.source_code n tcs k j.sub.verdict
      × (j.sub.passed_test_cases ≡ sub.passed_test_cases + k)

  decide_round :
      (n : ℕ) (sub : Submission) (tc : TestCase) (tcs : List TestCase) (rest j : Judged)
      (o : Option Verdict)
      → outcome h compare e profile w sub.language sub.source_code n tc ≡ o
      → Left sub rest j o
      → IsDecided (n + 1) (record sub { passed_test_cases = sub.passed_test_cases + 1 }) tcs rest
      → IsDecided n sub (tc ∷ tcs) j
  decide_round n sub tc tcs rest j none o (v, p) (k, d, q) = (suc k, rw v (passes o d), omega arith)
  decide_round n sub tc tcs rest j (some x) o (v, p) r = (0, rw v (fails o), omega arith)

  judge_tests-IsDecided :
      (n : ℕ) (sub : Submission) (tcs : List TestCase)
      → IsDecided n sub tcs (judge_tests h compare e profile w n sub tcs)
  unfolding judge_tests
  judge_tests-IsDecided n sub [] =
      let (v, p) = accept-fields h.analyzer sub in (0, rw v all_pass, omega arith)
  judge_tests-IsDecided n sub (tc ∷ tcs) =
      let start = start_container (h.docker (n + 1)) h.seccomp_path w profile in
      let sub' = record sub { passed_test_cases = sub.passed_test_cases + 1 } in
      let rest = judge_tests h compare e profile w (n + 1) sub' tcs in
      decide_round n sub tc tcs rest (after_start h compare e tc sub rest start)
        (outcome h compare e profile w sub.language sub.source_code n tc) refl
        (unfold outcome in after_start-Left tc sub rest start)
        (judge_tests-IsDecided (n + 1) sub' tcs)

  pub judge_tests_decide :
      (n : ℕ) (sub : Submission) (tcs : List TestCase)
      → (k : ℕ) × Decided h compare e profile w sub.language sub.source_code n tcs k
          (judge_tests h compare e profile w n sub tcs).sub.verdict
        × ((judge_tests h compare e profile w n sub tcs).sub.passed_test_cases
            ≡ sub.passed_test_cases + k)
  judge_tests_decide n sub tcs = judge_tests-IsDecided n sub tcs

  outcome-ne-accepted :
      (lang : Language) (source : Bytes) (n : ℕ) (tc : TestCase)
      → outcome h compare e profile w lang source n tc ≢ some Verdict.accepted
  unfolding outcome test_verdict
  outcome-ne-accepted lang source n tc p = ground (arith, p)

  accepted_count :
      (lang : Language) (source : Bytes) {n : ℕ} {tcs : List TestCase} {k : ℕ} {v : Verdict}
      → Decided h compare e profile w lang source n tcs k v
      → v ≡ Verdict.accepted
      → k ≡ length tcs
  accepted_count lang source all_pass p = refl
  accepted_count lang source (fails {n} {tc} o) p =
      absurd (outcome-ne-accepted lang source n tc (o ∙ ap some p))
  accepted_count lang source (passes o d) p = ap suc (accepted_count lang source d p)

  -- A submission that the loop accepts has passed all its tests, and its count has grown by the
  -- number of them: one that was judged before has more passed than there are.
  accepted_counts_all :
      (sub : Submission) (tcs : List TestCase)
      → (judge_tests h compare e profile w 0 sub tcs).sub.verdict ≡ Verdict.accepted
      → (judge_tests h compare e profile w 0 sub tcs).sub.passed_test_cases
        ≡ sub.passed_test_cases + length tcs
  accepted_counts_all sub tcs a =
      let (k, d, p) = judge_tests_decide 0 sub tcs in
      omega (arith, p, accepted_count sub.language sub.source_code d a)
