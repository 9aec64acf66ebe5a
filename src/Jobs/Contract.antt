-- ===== src/Jobs/Contract.antt =====
-- backend/internal/jobs/store.go: the interface JobStore, the store on Postgres that implements it,
-- and the contract of the interface, which is a store of its own: a map from ids to jobs, each of
-- which a method finds and moves on, or not.
use codera.Base.{
  ℕ, String, Bool, ◌&&◌, Option, none, some, List, [], ◌∷◌, map, ◌+◌, ltb, str_eq, if◌then◌else◌,
}
use codera.Domain.{ExecutionResult}
use codera.Jobs.Json.{to_valid_utf8, as_stored}
use codera.Jobs.Job.{
  queued, claimed, running, completed, dead_lettered, ExecutionJob, is_queued, is_claimed,
  is_running, is_leased,
}
use codera.Jobs.Table.{Table, Reply, answered, refused, lost, Moment, owned_by, is_due}
use codera.Jobs.Store
use codera.Jobs.Store.{StoreError, job_not_found, invalid_state, db_error, Fetched, row, failed}

-- What a call writes goes with the moment at which the database carries it out.
pub record JobStore : Type 1 where
  pub State : Type 0
  pub create : Moment → ExecutionJob → State → State × Option StoreError
  pub get : Moment → String → State → Fetched
  pub claim : Moment → String → String → ℕ → State → State × Option StoreError
  pub mark_running : Moment → String → String → State → State × Option StoreError
  pub complete : Moment → String → String → List ExecutionResult → State → State × Option StoreError
  pub fail_job : Moment → String → String → String → ℕ → State → State × Option StoreError
  pub renew_lease : Moment → String → String → ℕ → State → State × Option StoreError

abbrev pub postgres_store : JobStore
postgres_store = record {
  State = Table;
  create = Store.create;
  get = Store.get;
  claim = Store.claim;
  mark_running = Store.mark_running;
  complete = Store.complete;
  fail_job = Store.fail_job;
  renew_lease = Store.renew_lease;
}

abbrev pub JobMap : Type 0
JobMap = String → Option ExecutionJob

abbrev pub with_job : String → ExecutionJob → JobMap → JobMap
with_job id j m k = if str_eq id k then some j else m k

-- A job that is moved, or the state that does not allow it.
abbrev pub moved : String → Option ExecutionJob → JobMap → JobMap × Option StoreError
moved id none m = (m, some invalid_state)
moved id (some j) m = (with_job id j m, none)

-- What the caller learns: the error where the statement fails, also if it has been carried out.
abbrev pub answers : Reply → JobMap → JobMap × Option StoreError → JobMap × Option StoreError
answers answered m x = x
answers refused m x = (m, some db_error)
answers lost m x = (x.0, some db_error)

abbrev pub found_and :
    (ExecutionJob → Bool)
    → (ExecutionJob → ExecutionJob)
    → Option ExecutionJob
    → Option ExecutionJob
found_and q f none = none
found_and q f (some j) = if q j then some (f j) else none

abbrev pub move :
    Reply
    → String
    → (ExecutionJob → Bool)
    → (ExecutionJob → ExecutionJob)
    → JobMap
    → JobMap × Option StoreError
move a id q f m = answers a m (moved id (found_and q f (m id)) m)

-- What each method makes of a job: the status that the interface names, and the fields that go
-- with it. A new job is one that nobody has touched.
abbrev pub as_new : ExecutionJob → ExecutionJob
as_new j = record {
  id = j.id;
  language = j.language;
  source_code = j.source_code;
  inputs = map to_valid_utf8 j.inputs;
  status = queued;
  results = [];
  created_at = j.created_at;
  claimed_at = none;
  started_at = none;
  completed_at = none;
  worker_id = none;
  attempt_count = 0;
  max_attempts = j.max_attempts;
  next_retry_at = none;
  lease_expires_at = none;
  last_error = none;
  dead_lettered_at = none;
  last_dispatched_at = none;
}

-- CLAIMED, under a lease, with one more attempt.
abbrev pub as_claimed : ℕ → String → ℕ → ExecutionJob → ExecutionJob
as_claimed now worker lease r = record r {
  status = claimed;
  worker_id = some worker;
  claimed_at = some now;
  lease_expires_at = some (now + lease);
  attempt_count = r.attempt_count + 1;
}

-- RUNNING
abbrev pub as_running : ℕ → ExecutionJob → ExecutionJob
as_running now r = record r { status = running; started_at = some now }

-- COMPLETED, with its results, and held by nobody.
abbrev pub as_completed : ℕ → List ExecutionResult → ExecutionJob → ExecutionJob
as_completed now results r = record r {
  status = completed;
  results = map as_stored results;
  completed_at = some now;
  worker_id = none;
  lease_expires_at = none;
}

-- Held by nobody: QUEUED with a time to wait for if it has attempts left, and else DEAD_LETTERED.
abbrev pub as_failed : ℕ → String → ℕ → ExecutionJob → ExecutionJob
as_failed now message backoff r =
    if ltb r.attempt_count r.max_attempts
    then record r {
      status = queued;
      worker_id = none;
      lease_expires_at = none;
      last_error = some message;
      next_retry_at = some (now + backoff);
      dead_lettered_at = none;
    }
    else record r {
      status = dead_lettered;
      worker_id = none;
      lease_expires_at = none;
      last_error = some message;
      next_retry_at = none;
      dead_lettered_at = some now;
    }

-- The same status under a new lease.
abbrev pub as_renewed : ℕ → ℕ → ExecutionJob → ExecutionJob
as_renewed now lease r = record r { lease_expires_at = some (now + lease) }

-- A job that is there is not replaced.
abbrev pub added : Reply → ExecutionJob → Option ExecutionJob → JobMap → JobMap × Option StoreError
added a j (some old) m = (m, some db_error)
added a j none m = answers a m (moved j.id (some (as_new j)) m)

abbrev pub looked : Reply → Option ExecutionJob → Fetched
looked answered none = failed job_not_found
looked answered (some j) = row j
looked refused j = failed db_error
looked lost j = failed db_error

-- The state machine: from which status, and by whom, each method moves a job.
abbrev pub contract : JobStore
contract = record {
  State = JobMap;
  create =
      λ m j s. if is_queued j.status then added m.reply j (s j.id) s else (s, some invalid_state);
  get = λ m id s. looked m.reply (s id);
  claim = λ m id worker lease.
      move m.reply id (λ r. is_queued r.status && is_due m.now r.next_retry_at)
        (as_claimed m.now worker lease);
  mark_running = λ m id worker.
      move m.reply id (λ r. is_claimed r.status && owned_by worker r.worker_id) (as_running m.now);
  complete = λ m id worker results.
      move m.reply id (λ r. is_running r.status && owned_by worker r.worker_id)
        (as_completed m.now results);
  fail_job = λ m id worker message backoff.
      move m.reply id (λ r. owned_by worker r.worker_id && is_leased r.status)
        (as_failed m.now message backoff);
  renew_lease = λ m id worker lease.
      move m.reply id (λ r. is_leased r.status && owned_by worker r.worker_id)
        (as_renewed m.now lease);
}

-- One call of a method, and what it returns.
pub data Call : Type 0 where
  creates : ExecutionJob → Call
  gets : String → Call
  claims : String → String → ℕ → Call
  marks : String → String → Call
  completes : String → String → List ExecutionResult → Call
  fails : String → String → String → ℕ → Call
  renews : String → String → ℕ → Call

pub data Returned : Type 0 where
  wrote : Option StoreError → Returned
  got : Fetched → Returned

module _ (S : JobStore) where
  abbrev returns : S.State × Option StoreError → S.State × Returned
  returns (s, e) = (s, wrote e)

  unfoldable pub call : Moment → Call → S.State → S.State × Returned
  call m (creates j) s = returns (S.create m j s)
  call m (gets id) s = (s, got (S.get m id s))
  call m (claims id worker lease) s = returns (S.claim m id worker lease s)
  call m (marks id worker) s = returns (S.mark_running m id worker s)
  call m (completes id worker results) s = returns (S.complete m id worker results s)
  call m (fails id worker message backoff) s = returns (S.fail_job m id worker message backoff s)
  call m (renews id worker lease) s = returns (S.renew_lease m id worker lease s)

  -- Any callers' calls, in the order in which the store carries them out.
  unfoldable pub call_all : List (Moment × Call) → S.State → S.State × List Returned
  call_all [] s = (s, [])
  call_all ((m, c) ∷ cs) s =
      let (s', x) = call m c s in let (s'', xs) = call_all cs s' in (s'', x ∷ xs)
