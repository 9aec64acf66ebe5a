-- ===== src/Server/Submissions.antt =====
-- backend/internal/server/submission_handler.go. The repositories answer as arguments say:
-- `created` is the id that INSERT returns, or `none` for an error.
use codera.Base.{ℕ, String, Bool, true, false, Option, none, some, List, [], Bytes, if◌then◌else◌}
use codera.Domain.{
  Language, Submission, SubmissionStatus, Verdict, Problem, ProblemStatus, published,
}
use codera.Queue.{AddReply, QueueError, QueueCall, enqueue}
use codera.Repository.Rows.{Looked, found, missing, failing}

pub record CreateSubmissionRequest : Type 0 where
  pub user_id : String
  pub language : Language
  pub source_code : Bytes

pub record Response : Type 0 where
  pub status_code : ℕ
  pub body : Option Submission

abbrev pub fails_with : ℕ → Response
fails_with n = record { status_code = n; body = none }

abbrev pub is_published : ProblemStatus → Bool
is_published published = true
is_published _ = false

-- The literal; its other fields have Go's zero values, CreatedAt among them, and the id is the
-- one that the database returns.
unfoldable pub new_submission : CreateSubmissionRequest → String → String → Submission
new_submission req problem_id id = record {
  id = id;
  user_id = req.user_id;
  problem_id = problem_id;
  language = req.language;
  source_code = req.source_code;
  status = SubmissionStatus.queued;
  verdict = Verdict.pending;
  execution_time_ms = 0;
  memory_used_bytes = 0;
  passed_test_cases = 0;
  total_test_cases = 0;
  ai_time_complexity = [];
  ai_space_complexity = [];
  ai_feedback = [];
  created_at = 0;
  started_at = none;
  completed_at = none;
}

-- The submission stored, if any, the messages sent, and the response.
pub record Outcome : Type 0 where
  pub saved : Option Submission
  pub calls : List QueueCall
  pub response : Response

abbrev pub rejected : ℕ → Outcome
rejected n = record { saved = none; calls = []; response = fails_with n }

after_enqueue : Submission → List QueueCall × Option QueueError → Outcome
after_enqueue sub (calls, none) = record {
  saved = some sub;
  calls = calls;
  response = record { status_code = 202; body = some sub };
}
after_enqueue sub (calls, some e) = record {
  saved = some sub;
  calls = calls;
  response = fails_with 500;
}

module _ (supported : Language → Bool) (created : Option String) (closed : Bool)
    (reply : AddReply) where
  after_create : CreateSubmissionRequest → String → Option String → Outcome
  unfolding after_enqueue new_submission
  after_create req problem_id none = rejected 500
  after_create req problem_id (some id) =
      after_enqueue (new_submission req problem_id id) (enqueue closed reply id "submission")

  after_problem : {Float : Type 0} → CreateSubmissionRequest → Looked (Problem Float) → Outcome
  unfolding after_create
  after_problem req missing = rejected 404
  after_problem req failing = rejected 500
  after_problem req (found p) =
      if is_published p.status
      then if supported req.language then after_create req p.id created else rejected 400
      else rejected 400

  after_decode :
      {Float : Type 0} → Looked (Problem Float) → Option CreateSubmissionRequest → Outcome
  unfolding after_problem
  after_decode problem none = rejected 400
  after_decode problem (some req) = after_problem req problem

  unfoldable pub create_submission :
      {Float : Type 0} → Option CreateSubmissionRequest → Looked (Problem Float) → Outcome
  unfolding after_decode
  create_submission decoded problem = after_decode problem decoded

unfoldable pub get_submission : Looked Submission → Response
get_submission (found sub) = record { status_code = 200; body = some sub }
get_submission missing = fails_with 404
get_submission failing = fails_with 500
