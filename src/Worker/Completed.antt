-- ===== src/Worker/Completed.antt =====
-- Theorems on processRun of worker/pool.go: a run that keeps its lease completes its job.
use codera.Base.{map, ℕ, ◌+◌, String, true, some, List, ◌≡◌}
use codera.Domain.{ExecutionResult}
use codera.Queue.{QueueCall, QueueMessage}
use codera.Jobs.Json.{as_stored}
use codera.Jobs.Job.{ExecutionJob, is_running, completed}
use codera.Jobs.Table.{Table, answered, find}
use codera.Worker.Process.{
  Surroundings, Site, at_claim, at_mark, at_fetch, at_finish, lease_duration, finished,
  execute_inputs,
}
use codera.Worker.Safety.{acks}
use codera.Worker.Leased.{Spares, end_after, Undisturbed}

module _ (s : Surroundings) (worker : String) (msg : QueueMessage) (acked : s.ack_up ≡ true)
    (answers : (site : Site) → (s.moment site).reply ≡ answered) where
  abbrev pub lease_end : ℕ
  lease_end = (s.moment at_claim).now + lease_duration

  -- The end as the renewals leave it when the worker marks the job, and when it fetches it.
  abbrev pub marked_end : ℕ
  marked_end = end_after msg.job_id worker lease_end (s.others at_mark)

  abbrev pub fetched_end : ℕ
  fetched_end = end_after msg.job_id worker marked_end (s.others at_fetch)

  -- What is written while the worker holds the job, its own renewals included, does it no harm.
  abbrev pub IsSpared : Type 0
  IsSpared =
      Spares msg.job_id worker lease_end (s.others at_mark)
      × Spares msg.job_id worker marked_end (s.others at_fetch)
      × Spares msg.job_id worker fetched_end (s.others at_finish)

  -- The job is completed with the results after so many attempts, and its message acknowledged.
  abbrev pub IsCompleted : List ExecutionResult → ℕ → Table × List QueueCall → Type 0
  IsCompleted results n out =
      ((j : ExecutionJob) × (find msg.job_id out.0 ≡ some j)
        × (j.status ≡ completed)
        × (j.results ≡ map as_stored results)
        × (j.attempt_count ≡ n))
      × (acks msg.id out.1 ≡ true)

  module _ (spared : IsSpared) (results : List ExecutionResult) where
    -- The row is held and running, and the program can be executed on its inputs.
    abbrev Runs : ℕ → ExecutionJob → Type 0
    Runs until m =
        Undisturbed worker until m m
        × (is_running m.status ≡ true)
        × (execute_inputs s m 0 m.inputs ≡ finished results)
