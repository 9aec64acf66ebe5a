-- ===== src/Tests/Problems.antt =====
-- The theorems on problems, test cases and submissions in their tables, at concrete requests.
use codera.Base.{
  ℕ, zero, suc, Bool, true, Option, some, none, List, [], ◌∷◌, ◌≡◌, refl, codes, str_eq,
}
use codera.Config.Numbers.{pos}
use codera.Domain.{Language, Submission, TestCase, TestCaseVisibility}
use codera.Jobs.Table.{answered, refused}
use codera.Repository.Rows.{InsertReply, returned, found, insert, look_up}
use codera.Repository.Problems as Problems
use codera.Repository.TestCases as TestCases
use codera.Repository.Submissions as Submissions
use codera.Repository.Submissions.{updates}
use codera.Judge.Stored.{Database, Replies}
use codera.Server.Problems.{
  Tables, CreateFullProblemRequest, Shown, answer, numbered, and_then, create_test_cases, show,
  with_problem, with_test_cases, create_full_problem, after_problem, get_problem,
}
use codera.Server.Submissions.{CreateSubmissionRequest}
use codera.Server.PublicCases.{ShowsPublic, get_problem-ShowsPublic}
use codera.Server.FullProblems.{AddsProblem, create_full_problem-AddsProblem}
use codera.Server.RoundTrip.{IsServed, create_full_problem-IsServed}
use codera.Judge.Engine.{judge}
use codera.Server.Sessions.{Event, message, tick, is_final_submission, handle_submission_ws}
use codera.Server.Streams.{heard}
use codera.Server.Followed.{IsFollowed, judging-IsFollowed}
use codera.Server.Judged.{submitted}
use codera.Tests.Data.{
  source, problem, submission, a_test, whole, judge_host, system, comparators, registry,
}
use codera.Judge.Stored.{stored_host}
use codera.Language.Registry.{get}
use codera.Language.Executors.{
  python_executor, validate_text, is_blank_text, compile_with, execute_with,
}
use codera.Judge.Comparator.{
  fields, compare_by, get_comparator, compare_whitespace, normalize, join_lines, drop_empty,
  split_lines, replace_crlf, trim_right,
}
use codera.Sandbox.Container.{start_container}
use codera.Sandbox.Exec.{exec}
use codera.Process.Run.{run_process}
use codera.Judge.Loop.{judge_tests, test_verdict}
use codera.Process.Writer.{write_all, write}
use codera.Worker.Dispatch.{process_submission, process_job}
use codera.Worker.Settled.{IsJudged, handled, acknowledged_is_settled}
use codera.Queue.{ack}
use codera.Tests.Data.{two_jobs}
use codera.Tests.Worker.{surroundings, submitted as sent_message, two_jobs-Unique}
use codera.Tests.Order.{by_sort_order}

abbrev hidden_test : TestCase
hidden_test = record (a_test (codes "2")) { visibility = TestCaseVisibility.hidden }

abbrev last_test : TestCase
last_test = record (a_test (codes "3")) { sort_order = pos 7 }

abbrev tables : Tables (Option ℕ)
tables = record { problems = problem ∷ []; test_cases = last_test ∷ hidden_test ∷ a_test [] ∷ [] }

get_problem-ShowsPublic_example :
    ShowsPublic "p1" tables (record { problem = problem; test_cases = a_test [] ∷ last_test ∷ [] })
unfolding get_problem after_problem show Problems.get_by_id look_up TestCases.get_by_problem_id
get_problem-ShowsPublic_example =
    get_problem-ShowsPublic by_sort_order true true "p1" tables
      (record { problem = problem; test_cases = a_test [] ∷ last_test ∷ [] }) refl

abbrev full_request : CreateFullProblemRequest (Option ℕ)
full_request = record { problem = problem; test_cases = a_test [] ∷ hidden_test ∷ [] }

-- The third INSERT of a request, the second of a test case, is refused.
abbrev refuses_second : ℕ → InsertReply
refuses_second zero = returned "t1"
refuses_second (suc n) = InsertReply.refused

abbrev stores : ℕ → InsertReply
stores zero = returned "t1"
stores (suc n) = returned "t2"

create_full_problem-AddsProblem_example :
    AddsProblem full_request tables
      (create_full_problem (returned "p2") refuses_second (some full_request) tables)
create_full_problem-AddsProblem_example =
    create_full_problem-AddsProblem (returned "p2") refuses_second full_request tables

abbrev full_problem : Shown (Option ℕ)
full_problem = record {
  problem = record problem { id = "p2" };
  test_cases =
      record (a_test []) { id = "t1"; problem_id = "p2"; sort_order = pos 1 }
      ∷ record hidden_test { id = "t2"; problem_id = "p2"; sort_order = pos 2 }
      ∷ [];
}

create_full_problem-IsServed_example :
    IsServed by_sort_order
      (create_full_problem (returned "p2") stores (some full_request) tables).0
      full_problem
unfolding create_full_problem with_problem with_test_cases create_test_cases and_then numbered
    answer insert Problems.create TestCases.create Problems.get_by_id look_up
create_full_problem-IsServed_example =
    create_full_problem-IsServed by_sort_order (returned "p2") stores full_request tables
      full_problem refl refl (refl, (refl, (refl, tt)))

abbrev only_python : Language → Bool
only_python lang = str_eq lang "python"

abbrev a_request : CreateSubmissionRequest
a_request = record { user_id = "u1"; language = "python"; source_code = source }

abbrev database : Database (Option ℕ)
database = record {
  submissions = submission ∷ [];
  problems = problem ∷ [];
  test_cases = last_test ∷ hidden_test ∷ [];
}

-- The first update is refused, and another judge saves the submission before the last.
abbrev some_replies : Replies
some_replies = record {
  reads_submission = true;
  reads_problem = true;
  reads_test_cases = true;
  first_update = refused;
  others = updates answered (record submission { id = "s2" }) ∷ [];
  last_update = answered;
}

-- Each submission saved, as a message, with a ping and a message that cannot be decoded before it.
abbrev published : List Submission → List (Event Submission)
published [] = []
published (s ∷ ss) = tick true ∷ message none ∷ message (some s) ∷ published ss

heard-published : (ss : List Submission) → heard is_final_submission (published ss) ≡ ss
heard-published [] = refl
heard-published (s ∷ ss) = rw (heard-published ss) refl

judging-IsFollowed_example : IsFollowed submission (
    handle_submission_ws "s1" true
      (found submission)
      (published (judge whole (judge_host system) comparators registry).0))
judging-IsFollowed_example =
    judging-IsFollowed whole (judge_host system) comparators registry "s1" submission submission
      (published (judge whole (judge_host system) comparators registry).0) refl refl refl
      (heard-published _)

acknowledged_is_settled_example :
    IsJudged whole
      (judge_host system)
      comparators
      surroundings
      "w2"
      sent_message
      by_sort_order
      some_replies
      submission
      database
      (handled whole
        (judge_host system)
        comparators
        surroundings
        "w2"
        sent_message
        by_sort_order
        some_replies
        database
        two_jobs)
acknowledged_is_settled_example =
    acknowledged_is_settled whole (judge_host system) comparators surroundings "w2" sent_message
      by_sort_order some_replies two_jobs submission database two_jobs-Unique refl refl refl
      (unfold look_up in refl)
      (unfold process_job process_submission ack judge get stored_host Submissions.get_by_id
          Problems.get_by_id look_up TestCases.get_by_problem_id python_executor validate_text
          is_blank_text fields start_container compile_with exec run_process judge_tests
          execute_with test_verdict write_all write compare_by get_comparator compare_whitespace
          normalize join_lines drop_empty split_lines replace_crlf trim_right in
        refl)
