-- ===== src/Jobs/Life.antt =====
-- Theorem on the life of a job in the table, over any history of the calls of
-- jobs/postgres_store.go and of the sweeps of backend/internal/recovery.
use codera.Base.{ℕ, ◌≤◌, String, true, some, ◌≡◌, refl, arith, ◌⊎◌, inl, inr}
use codera.Jobs.Job.{ExecutionJob, JobStatus}
use codera.Jobs.Table.{Table, find}
use codera.Jobs.Store.{
  can_claim, claim_row, can_mark, mark_row, can_complete, complete_row, can_fail, fail_row,
  can_renew, renew_row,
}
use codera.Jobs.Recovery.{is_abandoned, recover_row, has_id, dispatch_row}
use codera.Jobs.History.{
  Update, claim, mark_running, complete, fail_job, renew_lease, recover, dispatched, History, run,
  guard, action, effect,
}
use codera.Jobs.Lifecycle.{is_terminal, SameOutcome, effect-⟶, ◌⟶◌}
use codera.Jobs.Runs.{find-run_any}
use codera.Jobs.Ownership.{terminal_is_final}

infix 40 ◌⟶*◌
-- A way through the status diagram.
pub data ◌⟶*◌ : JobStatus → JobStatus → Type 0 where
  stay : {a : JobStatus} → a ⟶* a
  onward : {a b c : JobStatus} → a ⟶* b → b ⟶ c → a ⟶* c

-- What a row and a later row of the same job have to do with each other.
pub record Grows (r s : ExecutionJob) : Type 0 where
  pub way : r.status ⟶* s.status
  pub attempts : r.attempt_count ≤ s.attempt_count
  pub budget : s.max_attempts ≡ r.max_attempts
  pub created : s.created_at ≡ r.created_at

extend : {a b : JobStatus} (c : JobStatus) → a ⟶* b → (c ≡ b) ⊎ (b ⟶ c) → a ⟶* c
extend c w (inl e) = rw e w
extend c w (inr e) = onward w e

effect-attempts :
    (now : ℕ) (u : Update) (r : ExecutionJob)
    → (r.attempt_count ≤ (effect now u r).attempt_count)
      × ((effect now u r).max_attempts ≡ r.max_attempts)
      × ((effect now u r).created_at ≡ r.created_at)
unfolding effect guard action can_claim claim_row can_mark mark_row can_complete complete_row
    can_fail fail_row can_renew renew_row is_abandoned recover_row has_id dispatch_row
effect-attempts now (claim id worker lease) r = ground arith
effect-attempts now (mark_running id worker) r = ground arith
effect-attempts now (complete id worker results) r = ground arith
effect-attempts now (fail_job id worker message backoff) r = ground arith
effect-attempts now (renew_lease id worker lease) r = ground arith
effect-attempts now recover r = ground arith
effect-attempts now (dispatched id) r = ground arith

effect-Grows : (now : ℕ) (u : Update) (r s : ExecutionJob) → Grows r s → Grows r (effect now u s)
effect-Grows now u r s g =
    let (a, b, c) = effect-attempts now u s in
    record {
      way = extend (effect now u s).status g.way (effect-⟶ now u s);
      attempts = omega (arith, a, g.attempts);
      budget = rw (b, g.budget) refl;
      created = rw (c, g.created) refl;
    }

-- A job that is in the table is still there after any history, under its key. Its status has gone
-- a way through the status diagram, its attempts have not become fewer, and the limit on them and
-- the time of its creation are as they were; and if it was completed or dead-lettered, it has the
-- status, results, completion and dead-letter times, error and attempts that it had.
pub job_goes_its_way :
    (h : History) (id : String) (t : Table) (r : ExecutionJob)
    → find id t ≡ some r
    → (s : ExecutionJob) × (find id (run h t) ≡ some s)
      × Grows r s
      × (is_terminal r.status ≡ true → SameOutcome r s)
job_goes_its_way h id t r e =
    let (s, f, g) =
      find-run_any (Grows r) (λ m u s g. effect-Grows m.now u r s g) h id t e
        (record { way = stay; attempts = omega arith; budget = refl; created = refl }) in
    (
      s,
      f,
      g,
      λ fin.
          let (z, k, same) = terminal_is_final h id t r e fin in
          let q : z ≡ s = cc in rw (← q) same,
    )
