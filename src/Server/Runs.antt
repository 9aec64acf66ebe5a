-- ===== src/Server/Runs.antt =====
-- backend/internal/server/run_handler.go: createRun, getRun and analyzeCode. `supported` is
-- registry.Get, as far as it succeeds; the decoder of a body and the analyser are arguments.
use codera.Base.{ℕ, String, Bool, Option, none, some, List, [], Bytes, if◌then◌else◌}
use codera.Domain.{Language, JobRequest}
use codera.Queue.{QueueCall}
use codera.Jobs.Job.{ExecutionJob, JobStatus}
use codera.Jobs.Table.{Table, Moment}
use codera.Jobs.Store.{job_not_found, Fetched, row}
use codera.Jobs.Service.{Created, job, Surroundings, create_execution, get_execution}
use codera.Analyzer.{Answer, Analysis, analysis, panicked}

pub record CreateRunRequest : Type 0 where
  pub language : Language
  pub source_code : Bytes
  pub inputs : List Bytes

-- The id and the status of a job.
pub record RunBody : Type 0 where
  pub id : String
  pub status : JobStatus

pub data RunResponse (Body : Type 0) : Type 0 where
  answered : ℕ → Body → RunResponse Body
  refused : ℕ → RunResponse Body

abbrev pub code_of : {Body : Type 0} → RunResponse Body → ℕ
code_of (answered n b) = n
code_of (refused n) = n

unfoldable pub answer_created : Created → RunResponse RunBody
answer_created (job j) = answered 202 (record { id = j.id; status = j.status })
answer_created (Created.failed e) = refused 500

abbrev pub job_request : CreateRunRequest → JobRequest
job_request req = record {
  language = req.language;
  source_code = req.source_code;
  inputs = req.inputs;
}

module _ (supported : Language → Bool) (s : Surroundings) where
  unfoldable pub create_run :
      Option CreateRunRequest → Table → Table × List QueueCall × RunResponse RunBody
  unfolding answer_created
  create_run none t = (t, [], refused 400)
  create_run (some req) t =
      if supported req.language
      then (let (t', calls, out) = create_execution supported s (job_request req) t in
          (t', calls, answer_created out))
      else (t, [], refused 400)

unfoldable pub answer_run : Fetched → RunResponse ExecutionJob
answer_run (row j) = answered 200 j
answer_run (Fetched.failed job_not_found) = refused 404
answer_run (Fetched.failed _) = refused 500

unfoldable pub get_run : Moment → String → Table → RunResponse ExecutionJob
unfolding answer_run
get_run m id t = answer_run (get_execution m id t)

-- The handler's panic is answered by RecoverPanic.
unfoldable pub answer_analysis : Answer → RunResponse Analysis
answer_analysis (Answer.failed e) = refused 500
answer_analysis panicked = refused 500
answer_analysis (analysis a) = answered 200 a

-- `analyzer` is none where no key is configured.
unfoldable pub analyze_code :
    Option (Bytes → Language → Answer) → Option CreateRunRequest → RunResponse Analysis
unfolding answer_analysis
analyze_code none decoded = refused 501
analyze_code (some analyze) none = refused 400
analyze_code (some analyze) (some req) = answer_analysis (analyze req.source_code req.language)
