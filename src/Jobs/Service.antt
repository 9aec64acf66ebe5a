-- ===== src/Jobs/Service.antt =====
-- backend/internal/jobs/service.go: the job service in front of the store and the queue.
use codera.Base.{
  ℕ, String, Bool, ◌||◌, Option, none, some, List, [], if◌then◌else◌, str_eq, bytes_eq,
}
use codera.Domain.{Language, JobRequest}
use codera.Queue.{AddReply, QueueError, QueueCall, enqueue}
use codera.Jobs.Job.{ExecutionJob, queued, clone}
use codera.Jobs.Table.{Table, Moment}
use codera.Jobs.Store
use codera.Jobs.Store.{StoreError, Fetched}

pub data ServiceError : Type 0 where
  fields_required : ServiceError
  unsupported_language : Language → ServiceError
  store_failed : StoreError → ServiceError
  enqueue_failed : QueueError → ServiceError

pub data Created : Type 0 where
  job : ExecutionJob → Created
  failed : ServiceError → Created

-- What the service meets during one call: the id that ulid makes, the clock, the database, and
-- the queue.
pub record Surroundings : Type 0 where
  pub fresh_id : String
  pub clock : ℕ
  pub insert_at : Moment
  pub queue_closed : Bool
  pub add_reply : AddReply

-- The fields of the literal; the others have Go's zero values, `MaxAttempts` among them.
unfoldable pub new_job : Surroundings → JobRequest → ExecutionJob
new_job s req = record {
  id = s.fresh_id;
  language = req.language;
  source_code = req.source_code;
  inputs = req.inputs;
  status = queued;
  results = [];
  created_at = s.clock;
  claimed_at = none;
  started_at = none;
  completed_at = none;
  worker_id = none;
  attempt_count = 0;
  max_attempts = 0;
  next_retry_at = none;
  lease_expires_at = none;
  last_error = none;
  dead_lettered_at = none;
  last_dispatched_at = none;
}

after_enqueue : ExecutionJob → Option QueueError → Created
after_enqueue j (some e) = failed (enqueue_failed e)
after_enqueue j none = job (clone j)

after_store :
    Surroundings → ExecutionJob → Table → Option StoreError → Table × List QueueCall × Created
after_store s j t (some e) = (t, [], failed (store_failed e))
after_store s j t none =
    let (calls, e) = enqueue s.queue_closed s.add_reply j.id "run" in (t, calls, after_enqueue j e)

-- `supported` is `registry.Get`, as far as it succeeds.
unfoldable pub create_execution :
    (Language → Bool) → Surroundings → JobRequest → Table → Table × List QueueCall × Created
unfolding after_store after_enqueue new_job
create_execution supported s req t =
    if str_eq req.language "" || bytes_eq req.source_code []
    then (t, [], failed fields_required)
    else if supported req.language
    then (let (t', e) = Store.create s.insert_at (new_job s req) t in
        after_store s (new_job s req) t' e)
    else (t, [], failed (unsupported_language req.language))

unfoldable pub get_execution : Moment → String → Table → Fetched
get_execution m id t = Store.get m id t
