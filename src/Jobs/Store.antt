-- ===== src/Jobs/Store.antt =====
-- backend/internal/jobs/store.go and postgres_store.go: the job store over the table.
use codera.Base.{
  ℕ, zero, suc, ◌+◌, String, Bool, ◌&&◌, Option, none, some, List, [], ◌∷◌, ltb, leb, if◌then◌else◌,
  str_eq, take, map,
}
use codera.Domain.{ExecutionResult}
use codera.Jobs.Job.{
  queued, claimed, running, completed, dead_lettered, ExecutionJob, is_queued, is_claimed,
  is_running, is_leased,
}
use codera.Jobs.Json.{to_valid_utf8, as_stored}
use codera.Jobs.Table.{Table, answered, refused, lost, Moment, owned_by, is_due, find, exec}

-- The errors of store.go, and any other that Postgres returns, wrapped.
pub data StoreError : Type 0 where
  job_not_found invalid_state db_error : StoreError

-- `if err != nil ...; if cmd.RowsAffected() == 0 ...`
unfoldable pub check_affected : Table × Option ℕ → Table × Option StoreError
check_affected (t, none) = (t, some db_error)
check_affected (t, some zero) = (t, some invalid_state)
check_affected (t, some (suc n)) = (t, none)

-- INSERT fails on a key that is there. `max_attempts` is taken from the job, so the column's
-- default does not apply; the columns that the statement leaves out are NULL or 0.
unfoldable pub inserted : ExecutionJob → ExecutionJob
inserted j = record j {
  inputs = map to_valid_utf8 j.inputs;
  results = [];
  claimed_at = none;
  started_at = none;
  completed_at = none;
  worker_id = none;
  attempt_count = 0;
  next_retry_at = none;
  lease_expires_at = none;
  last_error = none;
  dead_lettered_at = none;
  last_dispatched_at = none;
}

unfoldable pub insert_row :
    Moment → ExecutionJob → Option ExecutionJob → Table → Table × Option StoreError
insert_row m j (some old) t = (t, some db_error)
insert_row m j none t = elim m.reply [
  | answered ↦ (inserted j ∷ t, none)
  | refused ↦ (t, some db_error)
  | lost ↦ (inserted j ∷ t, some db_error)
]

unfoldable pub create : Moment → ExecutionJob → Table → Table × Option StoreError
unfolding insert_row
create m j t =
    if is_queued j.status then insert_row m j (find j.id t) t else (t, some invalid_state)

-- The result of `Get`: a job or an error.
pub data Fetched : Type 0 where
  row : ExecutionJob → Fetched
  failed : StoreError → Fetched

fetched : Option ExecutionJob → Fetched
fetched none = failed job_not_found
fetched (some j) = row j

unfoldable pub get : Moment → String → Table → Fetched
unfolding fetched
get m id t = elim m.reply [ answered ↦ fetched (find id t) | _ ↦ failed db_error ]

-- The WHERE clause and the SET list of each UPDATE, on one row.
unfoldable pub can_claim : ℕ → String → ExecutionJob → Bool
can_claim now id r = str_eq r.id id && (is_queued r.status && is_due now r.next_retry_at)

unfoldable pub claim_row : ℕ → String → ℕ → ExecutionJob → ExecutionJob
claim_row now worker lease r = record r {
  status = claimed;
  worker_id = some worker;
  claimed_at = some now;
  lease_expires_at = some (now + lease);
  attempt_count = r.attempt_count + 1;
}

unfoldable pub claim : Moment → String → String → ℕ → Table → Table × Option StoreError
claim m id worker lease t =
    check_affected (exec m.reply (can_claim m.now id) (claim_row m.now worker lease) t)

unfoldable pub can_mark : String → String → ExecutionJob → Bool
can_mark id worker r = str_eq r.id id && (is_claimed r.status && owned_by worker r.worker_id)

unfoldable pub mark_row : ℕ → ExecutionJob → ExecutionJob
mark_row now r = record r { status = running; started_at = some now }

unfoldable pub mark_running : Moment → String → String → Table → Table × Option StoreError
mark_running m id worker t = check_affected (exec m.reply (can_mark id worker) (mark_row m.now) t)

unfoldable pub can_complete : String → String → ExecutionJob → Bool
can_complete id worker r = str_eq r.id id && (is_running r.status && owned_by worker r.worker_id)

unfoldable pub complete_row : ℕ → List ExecutionResult → ExecutionJob → ExecutionJob
complete_row now results r = record r {
  status = completed;
  results = map as_stored results;
  completed_at = some now;
  worker_id = none;
  lease_expires_at = none;
}

unfoldable pub complete :
    Moment → String → String → List ExecutionResult → Table → Table × Option StoreError
complete m id worker results t =
    check_affected (exec m.reply (can_complete id worker) (complete_row m.now results) t)

unfoldable pub can_fail : String → String → ExecutionJob → Bool
can_fail id worker r = str_eq r.id id && (owned_by worker r.worker_id && is_leased r.status)

-- The CASE expressions of FailJob, whose retry waits for `backoff`; RecoverAbandonedJobs has
-- the same ones with no wait.
unfoldable pub fail_row : ℕ → String → ℕ → ExecutionJob → ExecutionJob
fail_row now message backoff r = record r {
  status = if ltb r.attempt_count r.max_attempts then queued else dead_lettered;
  worker_id = none;
  lease_expires_at = none;
  last_error = some message;
  next_retry_at = if ltb r.attempt_count r.max_attempts then some (now + backoff) else none;
  dead_lettered_at = if leb r.max_attempts r.attempt_count then some now else none;
}

unfoldable pub fail_job : Moment → String → String → String → ℕ → Table → Table × Option StoreError
fail_job m id worker message backoff t =
    check_affected (exec m.reply (can_fail id worker) (fail_row m.now message backoff) t)

unfoldable pub can_renew : String → String → ExecutionJob → Bool
can_renew id worker r = str_eq r.id id && (is_leased r.status && owned_by worker r.worker_id)

unfoldable pub renew_row : ℕ → ℕ → ExecutionJob → ExecutionJob
renew_row now lease r = record r { lease_expires_at = some (now + lease) }

unfoldable pub renew_lease : Moment → String → String → ℕ → Table → Table × Option StoreError
renew_lease m id worker lease t =
    check_affected (exec m.reply (can_renew id worker) (renew_row m.now lease) t)

-- SELECT id ... WHERE ready ORDER BY created_at ASC LIMIT limit; rows that tie keep their order.
unfoldable pub is_ready : ℕ → ExecutionJob → Bool
is_ready now r = is_queued r.status && is_due now r.next_retry_at

unfoldable pub insert_by_age : ExecutionJob → List ExecutionJob → List ExecutionJob
insert_by_age r [] = r ∷ []
insert_by_age r (s ∷ t) = if leb r.created_at s.created_at then r ∷ s ∷ t else s ∷ insert_by_age r t

unfoldable pub ready_by_age : ℕ → Table → List ExecutionJob
ready_by_age now [] = []
ready_by_age now (r ∷ t) =
    let rest = ready_by_age now t in if is_ready now r then insert_by_age r rest else rest

unfoldable pub find_queued : Moment → ℕ → Table → Option (List String)
find_queued m limit t = elim m.reply [
  | answered ↦ some (map (λ r. r.id) (take limit (ready_by_age m.now t)))
  | _ ↦ none
]

-- Both are left to the recovery service.
unfoldable pub recover_interrupted_running : Table → Table × ℕ
recover_interrupted_running t = (t, 0)

unfoldable pub recover_expired_leases : Table → Table × ℕ
recover_expired_leases t = (t, 0)
