-- ===== src/Worker/Process.antt =====
-- backend/internal/worker/pool.go: processRun. Between any two calls on the database other clients
-- may change the table: their operations, and the lease renewals that the worker's own goroutine
-- sends, are the histories of `Surroundings`. A panic is met in Worker.Panics.
use codera.Base.{
  ℕ, ◌+◌, String, Bool, ◌||◌, Option, none, some, List, [], ◌∷◌, ◌++◌, Bytes, if◌then◌else◌,
}
use codera.Domain.{ExecutionResult}
use codera.Queue.{QueueCall, QueueMessage, ack, publish_job_update}
use codera.Execution.Service as ExecutionService
use codera.Execution.Service.{Executed, ExecutionError}
use codera.Language.Registry.{MapRegistry}
use codera.Jobs.Job.{ExecutionJob, is_completed, is_dead_lettered}
use codera.Jobs.Table.{Table, Moment}
use codera.Jobs.Store.{
  StoreError, invalid_state, Fetched, row, failed, get, claim, mark_running, complete, fail_job,
}
use codera.Jobs.History.{History, run}

-- The places at which processRun calls the database.
pub data Site : Type 0 where
  at_claim at_check at_mark at_fetch at_finish at_publish : Site

-- `hosts n` is what the n-th execution meets, `canceled n` whether the execution's context is
-- done when its error is looked at, and `message_of` the text of an error.
pub record Surroundings : Type 0 where
  pub others : Site → History
  pub moment : Site → Moment
  pub registry : MapRegistry
  pub hosts : ℕ → ExecutionService.Host
  pub canceled : ℕ → Bool
  pub message_of : ExecutionError → String
  pub ack_up : Bool
  pub publish_up : Bool

-- 30 seconds and 2 seconds.
abbrev pub lease_duration : ℕ
lease_duration = 30000000

abbrev pub retry_backoff : ℕ
retry_backoff = 2000000

-- How the loop over the inputs ends.
pub data LoopEnd : Type 0 where
  finished : List ExecutionResult → LoopEnd
  canceled : LoopEnd
  platform_failure : ExecutionError → LoopEnd

abbrev with_result : ExecutionResult → LoopEnd → LoopEnd
with_result r (finished rs) = finished (r ∷ rs)
with_result r e = e

module _ (s : Surroundings) where
  after_execute : ℕ → LoopEnd → Executed → LoopEnd
  after_execute n rest (Executed.result r) = with_result r rest
  after_execute n rest (Executed.failed e) = if s.canceled n then canceled else platform_failure e

  unfoldable pub execute_inputs : ExecutionJob → ℕ → List Bytes → LoopEnd
  unfolding after_execute
  execute_inputs job n [] = finished []
  execute_inputs job n (input ∷ inputs) =
      let rest = execute_inputs job (n + 1) inputs in
      after_execute n rest
        (ExecutionService.execute (s.hosts n) s.registry
          (record { language = job.language; source_code = job.source_code; input = input })).1

  module _ (worker : String) (msg : QueueMessage) where
    -- The table as the next call finds it.
    abbrev pub meanwhile : Site → Table → Table
    meanwhile site t = run (s.others site) t

    -- The update is published only if the job can be read.
    unfoldable pub updates : Fetched → List QueueCall
    updates (row j) = (publish_job_update s.publish_up msg.job_id).0
    updates (failed e) = []

    unfoldable pub after_complete : Table × Option StoreError → Table × List QueueCall
    unfolding updates
    after_complete (t, some e) = (t, [])
    after_complete (t, none) =
        let t' = meanwhile at_publish t in
        (t', updates (get (s.moment at_publish) msg.job_id t') ++ (ack s.ack_up msg.id).0)

    unfoldable pub after_loop : Table → LoopEnd → Table × List QueueCall
    unfolding after_complete
    after_loop t canceled = (t, [])
    after_loop t (platform_failure e) =
        let t' = meanwhile at_finish t in
        ((fail_job (s.moment at_finish) msg.job_id worker (s.message_of e) retry_backoff t').0, [])
    after_loop t (finished results) =
        after_complete
          (complete (s.moment at_finish) msg.job_id worker results (meanwhile at_finish t))

    unfoldable pub after_fetch : Table → Fetched → Table × List QueueCall
    unfolding after_loop
    after_fetch t (failed e) = (t, [])
    after_fetch t (row job) =
        let (t', calls) = after_loop t (execute_inputs job 0 job.inputs) in
        (t', (publish_job_update s.publish_up msg.job_id).0 ++ calls)

    unfoldable pub after_mark : Table × Option StoreError → Table × List QueueCall
    unfolding after_fetch
    after_mark (t, some e) = (t, [])
    after_mark (t, none) =
        let t' = meanwhile at_fetch t in after_fetch t' (get (s.moment at_fetch) msg.job_id t')

    -- A message of a job that is done is acknowledged.
    unfoldable pub after_check : Table → Fetched → Table × List QueueCall
    after_check t (failed e) = (t, [])
    after_check t (row job) = (
      t,
      if is_completed job.status || is_dead_lettered job.status
          then (ack s.ack_up msg.id).0
          else [],
    )

    unfoldable pub after_claim : Table × Option StoreError → Table × List QueueCall
    unfolding after_mark after_check
    after_claim (t, some invalid_state) =
        let t' = meanwhile at_check t in after_check t' (get (s.moment at_check) msg.job_id t')
    after_claim (t, some _) = (t, [])
    after_claim (t, none) =
        after_mark (mark_running (s.moment at_mark) msg.job_id worker (meanwhile at_mark t))

    -- The table left, and the calls on the queue.
    unfoldable pub process_run : Table → Table × List QueueCall
    unfolding after_claim
    process_run t =
        after_claim
          (claim (s.moment at_claim) msg.job_id worker lease_duration (meanwhile at_claim t))
