-- ===== src/Jobs/Job.antt =====
-- backend/internal/jobs/job.go: an execution job. A job is also a row of the table `executions`
-- (postgres_store.go), whose columns are the fields of the struct. Times are microseconds. A nil
-- slice and an empty one are the same list.
use codera.Base.{ℕ, String, Bytes, Bool, true, false, Option, none, some, List, [], ◌++◌}
use codera.Domain.{Language, ExecutionResult}

pub data JobStatus : Type 0 where
  queued claimed running completed dead_lettered : JobStatus

-- `==` and `!=` on statuses, by the values that the code compares with.
abbrev pub is_queued : JobStatus → Bool
is_queued queued = true
is_queued _ = false

abbrev pub is_claimed : JobStatus → Bool
is_claimed claimed = true
is_claimed _ = false

abbrev pub is_running : JobStatus → Bool
is_running running = true
is_running _ = false

abbrev pub is_completed : JobStatus → Bool
is_completed completed = true
is_completed _ = false

abbrev pub is_dead_lettered : JobStatus → Bool
is_dead_lettered dead_lettered = true
is_dead_lettered _ = false

-- `job_status IN (CLAIMED, RUNNING)`
abbrev pub is_leased : JobStatus → Bool
is_leased claimed = true
is_leased running = true
is_leased _ = false

pub record ExecutionJob : Type 0 where
  pub id : String
  pub language : Language
  pub source_code : Bytes
  pub inputs : List Bytes
  pub status : JobStatus
  pub results : List ExecutionResult
  pub created_at : ℕ
  pub claimed_at : Option ℕ
  pub started_at : Option ℕ
  pub completed_at : Option ℕ
  pub worker_id : Option String
  pub attempt_count : ℕ
  pub max_attempts : ℕ
  pub next_retry_at : Option ℕ
  pub lease_expires_at : Option ℕ
  pub last_error : Option String
  pub dead_lettered_at : Option ℕ
  pub last_dispatched_at : Option ℕ

-- A pointer field is copied by a test for nil and a fresh variable.
abbrev pub copy_pointer {ℓ} : {A : Type ℓ} → Option A → Option A
copy_pointer none = none
copy_pointer (some a) = some a

unfoldable pub clone : ExecutionJob → ExecutionJob
clone j = record {
  id = j.id;
  language = j.language;
  source_code = j.source_code;
  inputs = [] ++ j.inputs;
  status = j.status;
  results = [] ++ j.results;
  created_at = j.created_at;
  claimed_at = copy_pointer j.claimed_at;
  started_at = copy_pointer j.started_at;
  completed_at = copy_pointer j.completed_at;
  worker_id = copy_pointer j.worker_id;
  attempt_count = j.attempt_count;
  max_attempts = j.max_attempts;
  next_retry_at = copy_pointer j.next_retry_at;
  lease_expires_at = copy_pointer j.lease_expires_at;
  last_error = copy_pointer j.last_error;
  dead_lettered_at = copy_pointer j.dead_lettered_at;
  last_dispatched_at = copy_pointer j.last_dispatched_at;
}
