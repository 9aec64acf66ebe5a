-- ===== src/Server/Problems.antt =====
-- backend/internal/server/problem_handler.go. The decoder of a body is an argument: the value that
-- it reads, or none.
use codera.Base.{ℕ, ◌+◌, String, Bool, false, Option, none, some, List, [], ◌∷◌, if◌then◌else◌}
use mathlib.Core.Option as Option
use codera.Config.Numbers.{pos, is_zero}
use codera.Domain.{Problem, TestCase}
use codera.Repository.Rows.{InsertReply, Looked, found, missing, failing, OrderBy}
use codera.Repository.Problems as Problems
use codera.Repository.TestCases as TestCases

-- The status code, and the body where there is one that is not the text of an error.
pub record Response (Body : Type 0) : Type 0 where
  pub status_code : ℕ
  pub body : Option Body

-- The two tables that the handler works on.
pub record Tables (Float : Type 0) : Type 0 where
  pub problems : List (Problem Float)
  pub test_cases : List TestCase

pub record CreateFullProblemRequest (Float : Type 0) : Type 0 where
  pub problem : Problem Float
  pub test_cases : List TestCase

pub record Shown (Float : Type 0) : Type 0 where
  pub problem : Problem Float
  pub test_cases : List TestCase

-- The answer to an INSERT of one row: 201 with the row as it now is, or 500.
unfoldable pub answer : {Body : Type 0} → Option Body → Response Body
answer none = record { status_code = 500; body = none }
answer (some row) = record { status_code = 201; body = some row }

-- `ProblemID = req.Problem.ID`, and a sort order for a test case that has none.
unfoldable pub numbered : String → ℕ → TestCase → TestCase
numbered problem_id i tc = record tc {
  problem_id = problem_id;
  sort_order = if is_zero tc.sort_order then pos (i + 1) else tc.sort_order;
}

-- The rest of the loop, after one INSERT and its answer.
unfoldable pub and_then :
    (List TestCase → List TestCase × Option (List TestCase))
    → List TestCase × Option TestCase
    → List TestCase × Option (List TestCase)
and_then rest (t, none) = (t, none)
and_then rest (t, some row) = let (t', rows) = rest t in (t', Option.map (λ xs. row ∷ xs) rows)

-- The loop over the test cases, from the i-th on; `replies i` is the answer to the i-th INSERT.
-- The table that it leaves, and the rows if every statement succeeds.
unfoldable pub create_test_cases :
    (ℕ → InsertReply)
    → String
    → ℕ
    → List TestCase
    → List TestCase
    → List TestCase × Option (List TestCase)
unfolding and_then
create_test_cases replies problem_id i [] t = (t, some [])
create_test_cases replies problem_id i (tc ∷ tcs) t =
    and_then (λ t'. create_test_cases replies problem_id (i + 1) tcs t')
      (TestCases.create (replies i) (numbered problem_id i tc) t)

module _ {Float : Type 0} where
  unfoldable pub create_problem :
      InsertReply → Option (Problem Float) → Tables Float → Tables Float × Response (Problem Float)
  unfolding answer Problems.create
  create_problem reply none t = (t, record { status_code = 400; body = none })
  create_problem reply (some p) t =
      let (ps, out) = Problems.create reply p t.problems in (record t { problems = ps }, answer out)

  -- After the problem `p` has been stored.
  unfoldable pub with_test_cases :
      (ℕ → InsertReply)
      → Problem Float
      → List TestCase
      → Tables Float
      → Tables Float × Response (Shown Float)
  unfolding create_test_cases answer
  with_test_cases replies p tcs t =
      let (cases, out) = create_test_cases replies p.id 0 tcs t.test_cases in
      let stored = Option.map (λ rows. record { problem = p; test_cases = rows }) out in
      (record t { test_cases = cases }, answer stored)

  unfoldable pub with_problem :
      (ℕ → InsertReply)
      → List TestCase
      → Tables Float
      → List (Problem Float) × Option (Problem Float)
      → Tables Float × Response (Shown Float)
  unfolding with_test_cases
  with_problem replies tcs t (ps, none) =
      (record t { problems = ps }, record { status_code = 500; body = none })
  with_problem replies tcs t (ps, some p) =
      with_test_cases replies p tcs (record t { problems = ps })

  unfoldable pub create_full_problem :
      InsertReply
      → (ℕ → InsertReply)
      → Option (CreateFullProblemRequest Float)
      → Tables Float
      → Tables Float × Response (Shown Float)
  unfolding with_problem
  create_full_problem reply replies none t = (t, record { status_code = 400; body = none })
  create_full_problem reply replies (some req) t =
      with_problem replies req.test_cases t (Problems.create reply req.problem t.problems)

  -- The id comes from the path.
  unfoldable pub create_test_case :
      InsertReply → String → Option TestCase → Tables Float → Tables Float × Response TestCase
  unfolding answer TestCases.create
  create_test_case reply id none t = (t, record { status_code = 400; body = none })
  create_test_case reply id (some tc) t =
      let (cases, out) = TestCases.create reply (record tc { problem_id = id }) t.test_cases in
      (record t { test_cases = cases }, answer out)

  unfoldable pub show : Problem Float → Option (List TestCase) → Response (Shown Float)
  show p none = record { status_code = 500; body = none }
  show p (some tcs) = record {
    status_code = 200;
    body = some (record { problem = p; test_cases = tcs });
  }

  unfoldable pub after_problem :
      OrderBy TestCase TestCases.IsEarlier
      → Bool
      → String
      → Tables Float
      → Looked (Problem Float)
      → Response (Shown Float)
  unfolding show
  after_problem o up id t missing = record { status_code = 404; body = none }
  after_problem o up id t failing = record { status_code = 500; body = none }
  after_problem o up id t (found p) =
      show p (TestCases.get_by_problem_id o up id false t.test_cases)

  -- `up` and `up'` say whether the database answers the two queries.
  unfoldable pub get_problem :
      OrderBy TestCase TestCases.IsEarlier
      → Bool
      → Bool
      → String
      → Tables Float
      → Response (Shown Float)
  unfolding after_problem
  get_problem o up up' id t = after_problem o up' id t (Problems.get_by_id up id t.problems)

  unfoldable pub listed : Option (List (Problem Float)) → Response (List (Problem Float))
  listed none = record { status_code = 500; body = none }
  listed (some ps) = record { status_code = 200; body = some ps }

  unfoldable pub list_problems :
      OrderBy (Problem Float) Problems.IsNewer
      → Bool
      → Tables Float
      → Response (List (Problem Float))
  unfolding listed Problems.list_all
  list_problems o up t = listed (Problems.list_all o up t.problems)
