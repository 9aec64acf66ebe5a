-- ===== src/Server/Api.antt =====
-- backend/internal/server: the server at one request, from the route that the mux finds to what the
-- handler stores, sends and answers. The stores are those that New hands to the handlers.
use codera.Base.{ℕ, String, Bool, true, Option, none, some, List, [], ◌∷◌, Bytes, str_eq}
use Prim.Native.String.{◌++◌}
use codera.Config.Checks.{Config}
use codera.Domain.{Language, JobRequest, Problem, TestCase, Submission}
use codera.Queue.{QueueError, QueueCall}
use codera.Jobs.Job.{ExecutionJob}
use codera.Jobs.Table.{Table, Moment}
use codera.Jobs.Store.{StoreError, Fetched, row, failed, job_not_found}
use codera.Jobs.Service as Service
use codera.Jobs.Service.{get_execution}
use codera.Analyzer.{Answer, Analysis}
use codera.Repository.Rows.{
  InsertReply, returned, refused, lost, Looked, found, missing, failing, OrderBy,
}
use codera.Repository.Problems as ProblemRows
use codera.Repository.Problems.{IsNewer}
use codera.Repository.TestCases.{IsEarlier}
use codera.Repository.Submissions as SubmissionRows
use codera.Server.Health.{Health, handle_health_live, handle_health_ready, guarded}
use codera.Server.Executions as Executions
use codera.Server.Executions.{handle_execute, handle_get_execution}
use codera.Server.Problems as Problems
use codera.Server.Problems.{Tables, CreateFullProblemRequest, Shown}
use codera.Server.Submissions as Submissions
use codera.Server.Submissions.{CreateSubmissionRequest, create_submission, get_submission}
use codera.Server.Runs.{CreateRunRequest, RunBody, RunResponse, create_run, get_run, analyze_code}
use codera.Server.Sessions.{Event, Session, handle_run_ws, handle_submission_ws}
use codera.Server.Routes.{Route, Found, handled, not_allowed, not_found, find_route}

pub record Server : Type 0 where
  pub shutting_down : Bool

pub record Stores (Float : Type 0) : Type 0 where
  pub executions : Table
  pub problems : Tables Float
  pub submissions : List Submission

-- What the decoder of each handler makes of the body.
pub record Body (Float : Type 0) : Type 0 where
  pub job : Option JobRequest
  pub run : Option CreateRunRequest
  pub submission : Option CreateSubmissionRequest
  pub problem : Option (Problem Float)
  pub full_problem : Option (CreateFullProblemRequest Float)
  pub test_case : Option TestCase

-- What the request meets outside: the registry, the texts of errors, the database, Redis, the
-- analyser, and the client of a session.
pub record Outside (Float : Type 0) : Type 0 where
  pub supported : Language → Bool
  pub store_text : StoreError → Bytes
  pub queue_text : QueueError → Bytes
  pub service : Service.Surroundings
  pub reads_job : Moment
  pub problem_reply : InsertReply
  pub case_reply : InsertReply
  pub case_replies : ℕ → InsertReply
  pub submission_reply : InsertReply
  pub by_order : OrderBy TestCase IsEarlier
  pub by_age : OrderBy (Problem Float) IsNewer
  pub reads_problem : Bool
  pub reads_cases : Bool
  pub reads_submission : Bool
  pub analyzer : Option (Bytes → Language → Answer)
  pub postgres : Option Bool
  pub redis : Option Bool
  pub upgrades : Bool
  pub run_events : List (Event ExecutionJob)
  pub submission_events : List (Event Submission)

pub data Answered (Float : Type 0) : Type 0 where
  health : Health → Answered Float
  version : String → Answered Float
  execution : Executions.Response → Answered Float
  problem : Problems.Response (Problem Float) → Answered Float
  full_problem : Problems.Response (Shown Float) → Answered Float
  test_case : Problems.Response TestCase → Answered Float
  problems : Problems.Response (List (Problem Float)) → Answered Float
  submission : Submissions.Response → Answered Float
  run_created : RunResponse RunBody → Answered Float
  run : RunResponse ExecutionJob → Answered Float
  analysis : RunResponse Analysis → Answered Float
  run_session : Session ExecutionJob → Answered Float
  submission_session : Session Submission → Answered Float
  refused_with : ℕ → Answered Float

-- handleVersion
unfoldable pub handle_version : String
handle_version = "1.0.0"

-- The http.Server that New sets up, with its times in seconds.
pub record HttpServer : Type 0 where
  pub addr : String
  pub read_header_timeout : ℕ
  pub read_timeout : ℕ
  pub write_timeout : ℕ
  pub idle_timeout : ℕ

unfoldable pub http_server : Config → HttpServer
http_server c = record {
  addr = ":" ++ c.port;
  read_header_timeout = 5;
  read_timeout = 10;
  write_timeout = 30;
  idle_timeout = 120;
}

-- Shutdown, before that of net/http.
unfoldable pub shutdown : Server → Server
shutdown s = record s { shutting_down = true }

-- The fetch of handleRunWS.
abbrev as_looked : Fetched → Looked ExecutionJob
as_looked (row j) = found j
as_looked (failed job_not_found) = missing
as_looked (failed _) = failing

-- The id that the row of a submission has if the statement is carried out, and the id that the
-- handler is given.
abbrev row_id : InsertReply → Option String
row_id (returned id) = some id
row_id refused = some ""
row_id (lost id) = some id

abbrev given_id : InsertReply → Option String
given_id (returned id) = some id
given_id refused = none
given_id (lost id) = none

-- The table of submissions after a handler that saves one, or none.
abbrev stored : InsertReply → Option Submission → List Submission → List Submission
stored reply none t = t
stored reply (some s) t = (SubmissionRows.create reply s t).0

module _ {Float : Type 0} (o : Outside Float) where
  abbrev on_executions :
      Stores Float
      → Table × List QueueCall × Executions.Response
      → Stores Float × List QueueCall × Answered Float
  on_executions st (t, calls, r) = (record st { executions = t }, calls, execution r)

  abbrev on_problems :
      {Body : Type 0}
      → (Problems.Response Body → Answered Float)
      → Stores Float
      → Tables Float × Problems.Response Body
      → Stores Float × List QueueCall × Answered Float
  on_problems answer st (t, r) = (record st { problems = t }, [], answer r)

  abbrev on_runs :
      Stores Float
      → Table × List QueueCall × RunResponse RunBody
      → Stores Float × List QueueCall × Answered Float
  on_runs st (t, calls, r) = (record st { executions = t }, calls, run_created r)

  abbrev problem_of : String → Stores Float → Looked (Problem Float)
  problem_of id st = ProblemRows.get_by_id o.reads_problem id st.problems.problems

  -- createSubmission, with the row that its INSERT leaves.
  unfoldable pub submit :
      String
      → Option CreateSubmissionRequest
      → Stores Float
      → Stores Float × List QueueCall × Answered Float
  submit id decoded st =
      let closed = o.service.queue_closed in
      let reply = o.service.add_reply in
      let out =
        create_submission o.supported (given_id o.submission_reply) closed reply decoded
          (problem_of id st) in
      let reached =
        create_submission o.supported (row_id o.submission_reply) closed reply decoded
          (problem_of id st) in
      (
        record st { submissions = stored o.submission_reply reached.saved st.submissions },
        out.calls,
        submission out.response,
      )

  -- The handlers, by their routes: the stores, the messages sent, and the answer.
  unfoldable pub handle :
      Server
      → Route
      → String
      → String
      → List String
      → Body Float
      → Stores Float
      → Stores Float × List QueueCall × Answered Float
  unfolding submit
  handle s Route.health_live id method path b st = (st, [], health handle_health_live)
  handle s Route.health_ready id method path b st =
      (st, [], health (handle_health_ready s.shutting_down o.postgres o.redis))
  handle s Route.version id method path b st = (st, [], version handle_version)
  handle s Route.execute id method path b st = on_executions st (
      guarded s.shutting_down
        (handle_execute o.supported o.store_text o.queue_text o.service (str_eq method "POST")
          b.job)
        st.executions)
  handle s Route.get_execution id method path b st = (
    st,
    [],
    execution (handle_get_execution o.reads_job (str_eq method "GET") ("" ∷ path) st.executions),
  )
  handle s Route.create_problem id method path b st =
      on_problems problem st (Problems.create_problem o.problem_reply b.problem st.problems)
  handle s Route.create_full_problem id method path b st =
      on_problems full_problem st
        (Problems.create_full_problem o.problem_reply o.case_replies b.full_problem st.problems)
  handle s Route.create_test_case id method path b st =
      on_problems test_case st (Problems.create_test_case o.case_reply id b.test_case st.problems)
  handle s Route.list_problems id method path b st =
      (st, [], problems (Problems.list_problems o.by_age o.reads_problem st.problems))
  handle s Route.get_problem id method path b st = (
    st,
    [],
    full_problem (Problems.get_problem o.by_order o.reads_problem o.reads_cases id st.problems),
  )
  handle s Route.create_submission id method path b st = submit id b.submission st
  handle s Route.get_submission id method path b st = (
    st,
    [],
    submission (get_submission (SubmissionRows.get_by_id o.reads_submission id st.submissions)),
  )
  handle s Route.create_run id method path b st =
      on_runs st (create_run o.supported o.service b.run st.executions)
  handle s Route.get_run id method path b st = (st, [], run (get_run o.reads_job id st.executions))
  handle s Route.analyze_code id method path b st =
      (st, [], analysis (analyze_code o.analyzer b.run))
  handle s Route.run_ws id method path b st = (
    st,
    [],
    run_session (
        handle_run_ws id o.upgrades (as_looked (get_execution o.reads_job id st.executions))
          o.run_events),
  )
  handle s Route.submission_ws id method path b st = (
    st,
    [],
    submission_session (
        handle_submission_ws id o.upgrades
          (SubmissionRows.get_by_id o.reads_submission id st.submissions) o.submission_events),
  )

  abbrev pub dispatch :
      Server
      → Found
      → String
      → List String
      → Body Float
      → Stores Float
      → Stores Float × List QueueCall × Answered Float
  dispatch s (handled x id) method path b st = handle s x id method path b st
  dispatch s (not_allowed methods) method path b st = (st, [], refused_with 405)
  dispatch s not_found method path b st = (st, [], refused_with 404)

  -- One request, given by its method, its path and its body.
  unfoldable pub answer_request :
      Server
      → String
      → List String
      → Body Float
      → Stores Float
      → Stores Float × List QueueCall × Answered Float
  unfolding handle
  answer_request s method path b st = dispatch s (find_route method path) method path b st
