-- ===== src/Jobs/Recovery.antt =====
-- backend/internal/recovery/service.go: the sweeps over the table `executions`.
use codera.Base.{
  ℕ, ◌+◌, String, Bool, true, false, ◌||◌, ◌≡◌, length, ◌&&◌, Option, none, some, List, [], ◌∷◌,
  ltb, leb, if◌then◌else◌, str_eq, take,
}
use codera.Queue.{AddReply, succeeds, reaches}
use codera.Jobs.Job.{queued, dead_lettered, ExecutionJob, is_queued, is_leased}
use codera.Jobs.Table.{Table, answered, Moment, is_past, is_due, exec}

-- UPDATE ... WHERE job_status IN (CLAIMED, RUNNING) AND lease_expires_at < NOW()
unfoldable pub is_abandoned : ℕ → ExecutionJob → Bool
is_abandoned now r = is_leased r.status && is_past now r.lease_expires_at

unfoldable pub recover_row : ℕ → ExecutionJob → ExecutionJob
recover_row now r = record r {
  status = if ltb r.attempt_count r.max_attempts then queued else dead_lettered;
  worker_id = none;
  lease_expires_at = none;
  last_error = some "worker lease expired";
  next_retry_at = if ltb r.attempt_count r.max_attempts then some now else none;
  dead_lettered_at = if leb r.max_attempts r.attempt_count then some now else none;
}

-- Errors and the number of rows are only logged.
unfoldable pub recover_abandoned_jobs : Moment → Table → Table
recover_abandoned_jobs m t = (exec m.reply (is_abandoned m.now) (recover_row m.now) t).0

-- `last_dispatched_at IS NULL OR last_dispatched_at < NOW() - INTERVAL '5 seconds'`
abbrev pub not_recent : ℕ → Option ℕ → Bool
not_recent now none = true
not_recent now (some t) = ltb (t + 5000000) now

unfoldable pub needs_dispatch : ℕ → ExecutionJob → Bool
needs_dispatch now r =
    is_queued r.status && (is_due now r.next_retry_at && not_recent now r.last_dispatched_at)

unfoldable pub select_ids : (ExecutionJob → Bool) → Table → List String
select_ids p [] = []
select_ids p (r ∷ t) = let rest = select_ids p t in if p r then r.id ∷ rest else rest

abbrev pub includes : String → List String → Bool
includes id [] = false
includes id (x ∷ xs) = str_eq x id || includes id xs

-- The order in which the database takes rows where the statement names none.
pub record AnyOrder : Type 0 where
  pub arrange : List String → List String
  pub arrange-includes :
      (id : String) (xs : List String) → includes id (arrange xs) ≡ includes id xs
  pub arrange-length : (xs : List String) → length (arrange xs) ≡ length xs

-- SELECT id ... LIMIT 100; on an error the sweep ends.
unfoldable pub delayed_ids : AnyOrder → Moment → Table → List String
unfolding select_ids
delayed_ids o m t = elim m.reply [
  | answered ↦ take 100 (o.arrange (select_ids (needs_dispatch m.now) t))
  | _ ↦ []
]

unfoldable pub has_id : String → ExecutionJob → Bool
has_id id r = str_eq r.id id

unfoldable pub dispatch_row : ℕ → ExecutionJob → ExecutionJob
dispatch_row now r = record r { last_dispatched_at = some now }

-- UPDATE executions SET last_dispatched_at = NOW() WHERE id = $1
unfoldable pub mark_dispatched : Moment → String → Table → Table
mark_dispatched m id t = (exec m.reply (has_id id) (dispatch_row m.now) t).0

-- One round of the loop: what becomes of the XADD, and the moment of the UPDATE that follows.
pub record Round : Type 0 where
  pub enqueued : AddReply
  pub at : Moment

-- The loop over the selected ids: an id whose Enqueue fails is passed over.
unfoldable pub dispatch_loop : (String → Round) → List String → Table → List String × Table
dispatch_loop round [] t = ([], t)
dispatch_loop round (id ∷ ids) t =
    let o = round id in
    let t' = if succeeds o.enqueued then mark_dispatched o.at id t else t in
    let (sent, u) = dispatch_loop round ids t' in
    (if reaches o.enqueued then id ∷ sent else sent, u)

-- The messages sent, each of type "run", and the table left.
unfoldable pub dispatch_delayed_jobs :
    AnyOrder → Moment → (String → Round) → Table → List String × Table
dispatch_delayed_jobs o m round t = dispatch_loop round (delayed_ids o m t) t
