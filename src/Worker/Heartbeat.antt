-- ===== src/Worker/Heartbeat.antt =====
-- backend/internal/worker/heartbeat.go, and MarkStaleWorkers of
-- backend/internal/recovery/service.go: the table `workers`, whose primary key is `worker_id`.
use codera.Base.{
  ℕ, ◌+◌, String, Bool, true, false, not, ◌&&◌, Option, none, some, List, [], ◌∷◌, ltb,
  if◌then◌else◌, str_eq,
}
use codera.Jobs.Table.{Reply, answered, refused, lost, Moment}

pub data WorkerStatus : Type 0 where
  starting active draining stopped : WorkerStatus

abbrev pub is_stopped : WorkerStatus → Bool
is_stopped stopped = true
is_stopped _ = false

pub record WorkerRow : Type 0 where
  pub worker_id : String
  pub status : WorkerStatus
  pub started_at : ℕ
  pub last_heartbeat_at : ℕ
  pub updated_at : ℕ

abbrev pub WorkerTable : Type 0
WorkerTable = List WorkerRow

unfoldable pub find_worker : String → WorkerTable → Option WorkerRow
find_worker id [] = none
find_worker id (r ∷ t) = if str_eq r.worker_id id then some r else find_worker id t

-- A statement that is refused changes nothing; each is one transaction.
abbrev pub carried : Reply → WorkerTable → WorkerTable → WorkerTable
carried refused t t' = t
carried answered t t' = t'
carried lost t t' = t'

-- INSERT ... ON CONFLICT (worker_id) DO UPDATE
unfoldable pub upsert : ℕ → String → WorkerStatus → WorkerTable → WorkerTable
upsert now id status [] =
    record {
      worker_id = id;
      status = status;
      started_at = now;
      last_heartbeat_at = now;
      updated_at = now;
    }
    ∷ []
upsert now id status (r ∷ t) =
    if str_eq r.worker_id id
    then record r { status = status; last_heartbeat_at = now; updated_at = now } ∷ t
    else r ∷ upsert now id status t

-- The error is looked at by no caller.
unfoldable pub update_status : Moment → String → WorkerStatus → WorkerTable → WorkerTable
update_status m id status t = carried m.reply t (upsert m.now id status t)

-- UPDATE workers SET f WHERE p
unfoldable pub update_workers :
    (WorkerRow → Bool) → (WorkerRow → WorkerRow) → WorkerTable → WorkerTable
update_workers p f [] = []
update_workers p f (r ∷ t) = (if p r then f r else r) ∷ update_workers p f t

-- One tick of Run.
unfoldable pub beat : Moment → String → WorkerTable → WorkerTable
beat m id t = carried m.reply t (
    update_workers (λ r. str_eq r.worker_id id)
      (λ r. record r { last_heartbeat_at = m.now; updated_at = m.now }) t)

unfoldable pub is_stale : ℕ → ℕ → WorkerRow → Bool
is_stale timeout now r = not (is_stopped r.status) && ltb (r.last_heartbeat_at + timeout) now

unfoldable pub mark_stale_workers : ℕ → Moment → WorkerTable → WorkerTable
mark_stale_workers timeout m t =
    carried m.reply t
      (update_workers (is_stale timeout m.now) (λ r. record r { status = stopped }) t)

-- The writes to the table, and sequences of them, each at its own moment.
pub data WorkerOperation : Type 0 where
  updated : String → WorkerStatus → WorkerOperation
  beaten : String → WorkerOperation
  swept : WorkerOperation

unfoldable pub apply_worker : ℕ → Moment → WorkerOperation → WorkerTable → WorkerTable
apply_worker timeout m (updated id status) t = update_status m id status t
apply_worker timeout m (beaten id) t = beat m id t
apply_worker timeout m swept t = mark_stale_workers timeout m t

abbrev pub WorkerHistory : Type 0
WorkerHistory = List (Moment × WorkerOperation)

unfoldable pub run_workers : ℕ → WorkerHistory → WorkerTable → WorkerTable
run_workers timeout [] t = t
run_workers timeout ((m, o) ∷ h) t = run_workers timeout h (apply_worker timeout m o t)
