-- ===== src/Jobs/Ownership.antt =====
-- Theorems on who may change a row of the table: finished jobs, leases, and the results of the
-- calls of jobs/postgres_store.go.
use codera.Base.{
  ℕ, ◌≤◌, String, Bool, true, Option, none, some, List, [], ◌∷◌, ◌≡◌, ◌≢◌, refl, arith,
  if◌then◌else◌, str_eq, eq_iff, All, ◌&&◌,
}
use codera.Domain.{ExecutionResult}
use codera.Jobs.Job.{ExecutionJob, is_leased, is_queued, is_claimed, is_running}
use codera.Jobs.Table.{Table, answered, Moment, find, exec, owned_by, is_due}
use codera.Jobs.Store
use codera.Jobs.Store.{
  StoreError, invalid_state, check_affected, can_claim, claim_row, can_mark, mark_row, can_complete,
  complete_row, can_fail, fail_row, can_renew, renew_row,
}
use codera.Jobs.Recovery.{is_abandoned, recover_row, has_id, dispatch_row}
use codera.Jobs.Rows.{Unique, count_where_lem}
use codera.Jobs.History.{
  Operation, insert, update, Update, claim, mark_running, complete, fail_job, renew_lease, recover,
  dispatched, History, run, guard, action, effect,
}
use codera.Jobs.Lifecycle.{is_terminal, SameOutcome, effect-terminal}
use codera.Jobs.Runs.{find-run, find-run_any}

SameOutcome-trans : {a b c : ExecutionJob} → SameOutcome a b → SameOutcome b c → SameOutcome a c
SameOutcome-trans p q = ground arith

-- A completed or dead-lettered job is still there after any history, with the status, results,
-- completion and dead-letter times, error and attempts that it had.
pub terminal_is_final :
    (h : History) (id : String) (t : Table) (r : ExecutionJob)
    → find id t ≡ some r
    → is_terminal r.status ≡ true
    → (s : ExecutionJob) × (find id (run h t) ≡ some s) × SameOutcome r s
terminal_is_final h id t r e fin =
    find-run_any (SameOutcome r)
      (λ m u s p. SameOutcome-trans p (effect-terminal m.now u s (rw p.status fin))) h id t e
      (ground arith)

-- The updates that worker `w` does not send.
abbrev pub NotBy : String → Operation → Type 0
NotBy w (insert j) = Unit
NotBy w (update (claim id v lease)) = Unit
NotBy w (update (mark_running id v)) = v ≢ w
NotBy w (update (complete id v results)) = v ≢ w
NotBy w (update (fail_job id v message backoff)) = v ≢ w
NotBy w (update (renew_lease id v lease)) = v ≢ w
NotBy w (update recover) = Unit
NotBy w (update (dispatched id)) = Unit

-- What a worker's hold on a job consists of.
pub record Holds (w : String) (until : ℕ) (r s : ExecutionJob) : Type 0 where
  pub status : s.status ≡ r.status
  pub leased : is_leased s.status ≡ true
  pub worker : s.worker_id ≡ some w
  pub lease : s.lease_expires_at ≡ some until
  pub attempts : s.attempt_count ≡ r.attempt_count
  pub results : s.results ≡ r.results

abbrev pub Before : ℕ → String → Moment → Operation → Type 0
Before until w m o = (m.now ≤ until) × NotBy w o

effect-Holds :
    (w : String) (until : ℕ) (r : ExecutionJob) (m : Moment) (u : Update) (s : ExecutionJob)
    → Before until w m (update u)
    → Holds w until r s
    → Holds w until r (effect m.now u s)
unfolding effect guard action can_claim claim_row can_mark mark_row can_complete complete_row
    can_fail fail_row can_renew renew_row is_abandoned recover_row has_id dispatch_row
effect-Holds w until r m (claim id v lease) s b h = ground arith
effect-Holds w until r m (mark_running id v) s b h = ground (arith, eq_iff w v)
effect-Holds w until r m (complete id v results) s b h = ground (arith, eq_iff w v)
effect-Holds w until r m (fail_job id v message backoff) s b h = ground (arith, eq_iff w v)
effect-Holds w until r m (renew_lease id v lease) s b h = ground (arith, eq_iff w v)
effect-Holds w until r m recover s b h = ground arith
effect-Holds w until r m (dispatched id) s b h = ground arith

-- While its lease has not run out, a job that worker `w` has claimed or is running is changed by
-- nobody else: after any operations of others up to that time, it has the same status, owner,
-- lease, attempts and results.
pub lease_protects :
    (h : History) (id w : String) (until : ℕ) (t : Table) (r : ExecutionJob)
    → find id t ≡ some r
    → Holds w until r r
    → All (λ o. Before until w o.0 o.1) h
    → (s : ExecutionJob) × (find id (run h t) ≡ some s) × Holds w until r s
lease_protects h id w until t r e holds before =
    find-run (Holds w until r) (Before until w) (effect-Holds w until r) h id t before e holds

-- The error of a call whose statement is answered, by the row under the key.
abbrev pub error_for : (ExecutionJob → Bool) → Option ExecutionJob → Option StoreError
error_for p none = some invalid_state
error_for p (some r) = if p r then none else some invalid_state

error_for-by_key :
    (id : String) (q : ExecutionJob → Bool) (t : Table)
    → error_for (λ r. str_eq r.id id && q r) (find id t) ≡ error_for q (find id t)
unfolding find
error_for-by_key id q [] = refl
error_for-by_key id q (r ∷ t) = ground (arith, error_for-by_key id q t)

left_true : (a b : Bool) → (a && b) ≡ true → a ≡ true
left_true a b h = ground arith

pub check-exec :
    (id : String) (q : ExecutionJob → Bool) (f : ExecutionJob → ExecutionJob) (t : Table)
    → Unique t
    → (check_affected (exec answered (λ r. str_eq r.id id && q r) f t)).1 ≡ error_for q (find id t)
unfolding exec check_affected
check-exec id q f t u = ground (
  arith,
  error_for-by_key id q t,
  count_where_lem id (λ r. str_eq r.id id && q r)
      (λ r h. (eq_iff r.id id).0 (left_true (str_eq r.id id) (q r) h)) t u,
)

module _ (now : ℕ) (id worker : String) (t : Table) (u : Unique t) where
  abbrev at : Moment
  at = record { now = now; reply = answered }

  -- With unique keys and an answering database, each call on the store succeeds exactly if the
  -- row is there with the status and the owner that the call names, and a claim also only if
  -- the retry time has come; any other call returns ErrInvalidState.
  store_results :
      (lease : ℕ) (results : List ExecutionResult) (message : String)
      → ((Store.claim at id worker lease t).1
          ≡ error_for (λ r. is_queued r.status && is_due now r.next_retry_at) (find id t))
        × ((Store.mark_running at id worker t).1
            ≡ error_for (λ r. is_claimed r.status && owned_by worker r.worker_id) (find id t))
        × ((Store.complete at id worker results t).1
            ≡ error_for (λ r. is_running r.status && owned_by worker r.worker_id) (find id t))
        × ((Store.fail_job at id worker message lease t).1
            ≡ error_for (λ r. owned_by worker r.worker_id && is_leased r.status) (find id t))
        × ((Store.renew_lease at id worker lease t).1
            ≡ error_for (λ r. is_leased r.status && owned_by worker r.worker_id) (find id t))
  unfolding Store.claim Store.mark_running Store.complete Store.fail_job Store.renew_lease can_claim
      can_mark can_complete can_fail can_renew
  store_results lease results message = (
    check-exec id (λ r. is_queued r.status && is_due now r.next_retry_at) _ t u,
    check-exec id (λ r. is_claimed r.status && owned_by worker r.worker_id) _ t u,
    check-exec id (λ r. is_running r.status && owned_by worker r.worker_id) _ t u,
    check-exec id (λ r. owned_by worker r.worker_id && is_leased r.status) _ t u,
    check-exec id (λ r. is_leased r.status && owned_by worker r.worker_id) _ t u,
  )
