-- ===== src/Jobs/Retries.antt =====
-- Theorems on the attempts of the jobs that jobs/service.go creates.
use codera.Base.{◌≤◌, Bool, some, ◌∷◌, ◌≡◌, refl, arith, eq_refl, Bool-cases, inl, inr}
use codera.Domain.{Language, JobRequest}
use codera.Queue.{enqueue}
use codera.Jobs.Job.{ExecutionJob, queued, clone}
use codera.Jobs.Table.{Table, Moment, find}
use codera.Jobs.Store.{create, inserted}
use codera.Jobs.Service.{job, Surroundings, new_job, create_execution}
use codera.Jobs.History.{Update, History, run, guard, effect}
use codera.Jobs.Lifecycle.{IsValid, inserted-IsValid, action-IsValid, max_attempts-action}
use codera.Jobs.Runs.{find-run_any}

-- A valid row with a budget of no attempts.
record NoRetry (r : ExecutionJob) : Type 0 where
  valid : IsValid r
  max_zero : r.max_attempts ≡ 0

effect-NoRetry :
    (m : Moment) (u : Update) (r : ExecutionJob) → NoRetry r → NoRetry (effect m.now u r)
unfolding effect
effect-NoRetry m u r h = elim (Bool-cases (guard m.now u r)) [
  | inl e ↦ rw e (record {
    valid = action-IsValid m.now u r h.valid e;
    max_zero = rw max_attempts-action h.max_zero;
  })
  | inr e ↦ rw e h
]

-- A job that the service returns is at the head of the table, under its id.
created_row :
    (supported : Language → Bool) (s : Surroundings) (req : JobRequest) (t : Table)
    {j : ExecutionJob}
    → (create_execution supported s req t).2 ≡ job j
    → ((create_execution supported s req t).0 ≡ inserted (new_job s req) ∷ t) × (j.id ≡ s.fresh_id)
unfolding create_execution create enqueue clone
created_row supported s req t h = ground arith

find-head : (r : ExecutionJob) (t : Table) → find r.id (r ∷ t) ≡ some r
unfolding find
find-head r t = rw eq_refl

new_job-found :
    (s : Surroundings) (req : JobRequest) (t : Table)
    → find s.fresh_id (inserted (new_job s req) ∷ t) ≡ some (inserted (new_job s req))
unfolding inserted new_job
new_job-found s req t = find-head (inserted (new_job s req)) t

new_job-NoRetry : (s : Surroundings) (req : JobRequest) → NoRetry (inserted (new_job s req))
unfolding inserted new_job
new_job-NoRetry s req = record { valid = inserted-IsValid (new_job s req) refl; max_zero = refl }

-- A job that CreateExecution has stored and returned is claimed at most once, whatever happens
-- afterwards: after any operations its row is there, it has had at most one attempt, and if it
-- waits in the queue it has had none. So a failed or abandoned job is never tried again.
pub created_job_never_retried :
    (supported : Language → Bool) (s : Surroundings) (req : JobRequest) (t : Table)
    (j : ExecutionJob) (h : History)
    → (create_execution supported s req t).2 ≡ job j
    → (r : ExecutionJob) × (find j.id (run h (create_execution supported s req t).0) ≡ some r)
      × (r.attempt_count ≤ 1)
      × (r.status ≡ queued → r.attempt_count ≡ 0)
created_job_never_retried supported s req t j h e =
    let (table, id) = created_row supported s req t e in
    let (r, found, n) =
      find-run_any NoRetry effect-NoRetry h s.fresh_id (inserted (new_job s req) ∷ t)
        (new_job-found s req t) (new_job-NoRetry s req) in
    (
      r,
      rw (id, table) found,
      ground (arith, n.valid.budget, n.max_zero),
      λ q. ground (arith, n.valid.requeued q, n.max_zero),
    )
