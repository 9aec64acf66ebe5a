-- ===== src/Server/RunsServed.antt =====
-- Theorems on createRun and getRun of server/run_handler.go with processRun of worker/pool.go: a
-- run from its request to its answer.
use codera.Base.{map, String, none, List, ◌≡◌, ◌≢◌}
use codera.Domain.{ExecutionResult}
use codera.Jobs.Job.{ExecutionJob, queued, completed}
use codera.Jobs.Table.{Table, Moment, answered}
use codera.Jobs.Store.{inserted}
use codera.Jobs.History.{Operation, update, claim, History}
use codera.Jobs.Service as Service
use codera.Jobs.Service.{new_job}
use codera.Worker.Process.{Surroundings}
use codera.Jobs.Json.{as_stored}
use codera.Server.Runs as Runs
use codera.Server.Runs.{CreateRunRequest, RunResponse, job_request}

-- Nobody claims the job.
abbrev pub Unclaimed : String → Moment → Operation → Type 0
Unclaimed id m (update (claim k worker lease)) = k ≢ id
Unclaimed id m o = Unit

-- The row waits in the queue as it was stored, but for the time of its last message.
record Waits (r s : ExecutionJob) : Type 0 where
  key : s.id ≡ r.id
  status : s.status ≡ queued
  retry : s.next_retry_at ≡ none
  language : s.language ≡ r.language
  source_code : s.source_code ≡ r.source_code
  inputs : s.inputs ≡ r.inputs
  attempts : s.attempt_count ≡ r.attempt_count

-- The row of an accepted run.
abbrev pub run_row : Service.Surroundings → CreateRunRequest → ExecutionJob
run_row svc req = inserted (new_job svc (job_request req))

-- getRun answers 200 with a job that is completed with the results, as the database gives them back.
abbrev pub IsServed : List ExecutionResult → RunResponse ExecutionJob → Type 0
IsServed results x =
    (j : ExecutionJob) × (x ≡ Runs.answered 200 j)
    × (j.status ≡ completed)
    × (j.results ≡ map as_stored results)
