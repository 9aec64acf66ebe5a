-- ===== src/Tests/Judge.antt =====
-- The theorems on comparators and on Judge, at concrete outputs, problems and processes.
use codera.Base.{ℕ, true, false, Option, none, some, [], ◌∷◌, ◌≡◌, ◌↔◌, refl, codes}
use codera.Config.Numbers.{pos}
use codera.Domain.{Submission}
use codera.Sandbox.Exec.{ExecOptions}
use codera.Judge.Comparator.{compare_whitespace, compare_float, fields}
use codera.Judge.Engine.{judge}
use codera.Judge.Same.{SameLines, lines_of, compare_whitespace_iff}
use codera.Judge.Tokens.{All₂, Agree, compare_float_iff}
use codera.Judge.Finalized.{Finalizes, judge-Finalizes}
use codera.Tests.Data.{seconds, system, registry, whole, comparators, submission, judge_host}

compare_whitespace_iff_example :
    (compare_whitespace (codes "1 2\n") (codes "1 2 \r\n\n") ≡ true)
    ↔ SameLines (lines_of (codes "1 2\n")) (lines_of (codes "1 2 \r\n\n"))
compare_whitespace_iff_example = compare_whitespace_iff (codes "1 2\n") (codes "1 2 \r\n\n")

compare_float_iff_example :
    (compare_float whole (some 1) (codes "10 x") (codes " 11\nx") ≡ true)
    ↔ All₂ (Agree whole (some 1)) (fields (codes "10 x")) (fields (codes " 11\nx"))
compare_float_iff_example = compare_float_iff whole (some 1) (codes "10 x") (codes " 11\nx")

nan_incomparable : (x : Option ℕ) → whole.is_farther x none (some 1) ≡ false
nan_incomparable none = refl
nan_incomparable (some a) = refl

-- A submission that was judged before, with one test passed.
abbrev judged_before : Submission
judged_before = record submission { passed_test_cases = 1 }

judge-Finalizes_example :
    Finalizes (seconds 20) submission (judge whole (judge_host system) comparators registry)
judge-Finalizes_example =
    judge-Finalizes whole (judge_host system) comparators registry submission refl

abbrev compiler : ExecOptions
compiler = record {
  command = "g++";
  args = "main.cpp" ∷ [];
  stdin = none;
  stdout_limit = 100;
  stderr_limit = 100;
  timeout = pos (seconds 4);
}
