-- ===== src/Judge/Stored.antt =====
-- backend/internal/judge/engine.go with the repositories that it is given: what Judge reads of the
-- tables and what its updates leave there.
use codera.Base.{String, Bool, true, Option, none, some, List, [], ◌∷◌}
use codera.Domain.{Submission, Problem, TestCase}
use codera.Jobs.Table.{Reply}
use codera.Sandbox.Container.{ResourceCall}
use codera.Repository.Rows.{Looked, found, missing, failing, OrderBy}
use codera.Repository.Problems as Problems
use codera.Repository.TestCases.{IsEarlier, get_by_problem_id}
use codera.Repository.Submissions as Submissions
use codera.Repository.Submissions.{Write, write_all}
use codera.Language.Registry.{MapRegistry}
use codera.Judge.Comparator.{Floats, ComparatorRegistry}
use codera.Judge.Loop.{JudgeEnd, Host}
use codera.Judge.Engine.{judge}

pub record Database (Float : Type 0) : Type 0 where
  pub submissions : List Submission
  pub problems : List (Problem Float)
  pub test_cases : List TestCase

-- Judge tells no error of a repository from another.
abbrev pub unless_error {ℓ} : {A : Type ℓ} → Looked A → Option A
unless_error (found a) = some a
unless_error missing = none
unless_error failing = none

-- Which of the statements of one call of Judge the database answers or carries out, and what
-- others write to the submissions between its two updates.
pub record Replies : Type 0 where
  pub reads_submission : Bool
  pub reads_problem : Bool
  pub reads_test_cases : Bool
  pub first_update : Reply
  pub others : List Write
  pub last_update : Reply

-- The errors of Update are ignored. Others may write to the table before each update but the first.
unfoldable pub save_all :
    Reply → List Write → Reply → List Submission → List Submission → List Submission
save_all a others b t [] = t
save_all a others b t (s ∷ ss) = save_all b [] b (write_all others (Submissions.update a s t).0) ss

module _ (f : Floats) (h : Host f.Float) (comparators : ComparatorRegistry)
    (languages : MapRegistry) (o : OrderBy TestCase IsEarlier) (replies : Replies) where
  open f use {Float}

  problem_of : Database Float → Looked Submission → Option (Problem Float)
  problem_of d (found sub) =
      unless_error (Problems.get_by_id replies.reads_problem sub.problem_id d.problems)
  problem_of d missing = none
  problem_of d failing = none

  test_cases_of : Database Float → Option (Problem Float) → Option (List TestCase)
  test_cases_of d none = none
  test_cases_of d (some p) = get_by_problem_id o replies.reads_test_cases p.id true d.test_cases

  -- What Judge reads: the submission, its problem, and all the test cases of the problem.
  unfoldable pub stored_host : String → Database Float → Host Float
  unfolding problem_of test_cases_of
  stored_host id d =
      let sub = Submissions.get_by_id replies.reads_submission id d.submissions in
      let problem = problem_of d sub in
      record h {
        submission = unless_error sub;
        problem = problem;
        test_cases = test_cases_of d problem;
      }

  -- Judge, called with the id of a submission: the tables that it leaves, its calls, its end.
  unfoldable pub judge_stored :
      String → Database Float → Database Float × List ResourceCall × JudgeEnd
  unfolding stored_host save_all
  judge_stored id d =
      let (saved, calls, e) = judge f (stored_host id d) comparators languages in
      let submissions =
        save_all replies.first_update replies.others replies.last_update d.submissions saved in
      (record d { submissions = submissions }, calls, e)
