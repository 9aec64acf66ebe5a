-- ===== src/Jobs/Lifecycle.antt =====
-- Theorems on single updates of a row: a notion of a valid row, and the diagram of the status.
use codera.Base.{is_some, ℕ, ◌≤◌, ◌<◌, Bool, true, false, ◌≡◌, ◌≢◌, refl, arith, ◌⊎◌}
use codera.Jobs.Job.{
  JobStatus, queued, claimed, running, completed, dead_lettered, ExecutionJob, is_queued, is_leased,
}
use codera.Jobs.Store.{
  can_claim, claim_row, can_mark, mark_row, can_complete, complete_row, can_fail, fail_row,
  can_renew, renew_row, inserted,
}
use codera.Jobs.Recovery.{is_abandoned, recover_row, has_id, dispatch_row}
use codera.Jobs.History.{
  Update, claim, mark_running, complete, fail_job, renew_lease, recover, dispatched, guard, action,
  effect,
}

abbrev pub is_terminal : JobStatus → Bool
is_terminal completed = true
is_terminal dead_lettered = true
is_terminal _ = false

-- A lease and an owner are there exactly while a worker has the job, each status has its time
-- stamp, and the attempts stay within the budget.
pub record IsValid (r : ExecutionJob) : Type 0 where
  pub owner : is_some r.worker_id ≡ is_leased r.status
  pub lease : is_some r.lease_expires_at ≡ is_leased r.status
  pub claimed_stamp : is_leased r.status ≡ true → is_some r.claimed_at ≡ true
  pub started_stamp : r.status ≡ running → is_some r.started_at ≡ true
  pub completed_stamp : r.status ≡ completed → is_some r.completed_at ≡ true
  pub dead_stamp : is_some r.dead_lettered_at ≡ true → r.status ≡ dead_lettered
  pub exhausted :
      r.status ≡ dead_lettered → (r.max_attempts ≤ r.attempt_count) × (is_some r.last_error ≡ true)
  pub attempted : r.status ≢ queued → 0 < r.attempt_count
  pub budget : (r.attempt_count ≤ r.max_attempts) ⊎ (r.attempt_count ≤ 1)
  pub requeued : r.status ≡ queued → (r.attempt_count ≡ 0) ⊎ (r.attempt_count < r.max_attempts)

pub inserted-IsValid : (j : ExecutionJob) → is_queued j.status ≡ true → IsValid (inserted j)
unfolding inserted
inserted-IsValid j h = ground arith

-- Every update keeps a row valid.
pub action-IsValid :
    (now : ℕ) (u : Update) (r : ExecutionJob)
    → IsValid r
    → guard now u r ≡ true
    → IsValid (action now u r)
unfolding guard action can_claim claim_row can_mark mark_row can_complete complete_row can_fail
    fail_row can_renew renew_row is_abandoned recover_row has_id dispatch_row
action-IsValid now (claim id worker lease) r v h = ground arith
action-IsValid now (mark_running id worker) r v h = ground arith
action-IsValid now (complete id worker results) r v h = ground arith
action-IsValid now (fail_job id worker message backoff) r v h = ground arith
action-IsValid now (renew_lease id worker lease) r v h = ground arith
action-IsValid now recover r v h = ground arith
action-IsValid now (dispatched id) r v h = ground arith

infix 40 ◌⟶◌
pub data ◌⟶◌ : JobStatus → JobStatus → Type 0 where
  take : queued ⟶ claimed
  start : claimed ⟶ running
  finish : running ⟶ completed
  retry : {s : JobStatus} → is_leased s ≡ true → s ⟶ queued
  give_up : {s : JobStatus} → is_leased s ≡ true → s ⟶ dead_lettered

ruleset edges = (take, start, finish, retry, give_up)

-- Every update, at any time, leaves the status of a row or moves it along one edge of the diagram.
pub effect-⟶ :
    (now : ℕ) (u : Update) (r : ExecutionJob)
    → ((effect now u r).status ≡ r.status) ⊎ (r.status ⟶ (effect now u r).status)
unfolding effect guard action can_claim claim_row can_mark mark_row can_complete complete_row
    can_fail fail_row can_renew renew_row is_abandoned recover_row has_id dispatch_row
effect-⟶ now (claim id worker lease) r = grind (arith, edges)
effect-⟶ now (mark_running id worker) r = grind (arith, edges)
effect-⟶ now (complete id worker results) r = grind (arith, edges)
effect-⟶ now (fail_job id worker message backoff) r = grind (arith, edges)
effect-⟶ now (renew_lease id worker lease) r = grind (arith, edges)
effect-⟶ now recover r = grind (arith, edges)
effect-⟶ now (dispatched id) r = grind (arith, edges)

-- What a finished job must keep.
pub record SameOutcome (a b : ExecutionJob) : Type 0 where
  pub status : b.status ≡ a.status
  pub results : b.results ≡ a.results
  pub completed_at : b.completed_at ≡ a.completed_at
  pub dead_lettered_at : b.dead_lettered_at ≡ a.dead_lettered_at
  pub last_error : b.last_error ≡ a.last_error
  pub attempt_count : b.attempt_count ≡ a.attempt_count

pub effect-terminal :
    (now : ℕ) (u : Update) (r : ExecutionJob)
    → is_terminal r.status ≡ true
    → SameOutcome r (effect now u r)
unfolding effect guard action can_claim claim_row can_mark mark_row can_complete complete_row
    can_fail fail_row can_renew renew_row is_abandoned recover_row has_id dispatch_row
effect-terminal now (claim id worker lease) r h = ground arith
effect-terminal now (mark_running id worker) r h = ground arith
effect-terminal now (complete id worker results) r h = ground arith
effect-terminal now (fail_job id worker message backoff) r h = ground arith
effect-terminal now (renew_lease id worker lease) r h = ground arith
effect-terminal now recover r h = ground arith
effect-terminal now (dispatched id) r h = ground arith

pub id-action : (now : ℕ) (u : Update) (r : ExecutionJob) → (action now u r).id ≡ r.id
unfolding action claim_row mark_row complete_row fail_row renew_row recover_row dispatch_row
id-action now (claim id worker lease) r = refl
id-action now (mark_running id worker) r = refl
id-action now (complete id worker results) r = refl
id-action now (fail_job id worker message backoff) r = refl
id-action now (renew_lease id worker lease) r = refl
id-action now recover r = refl
id-action now (dispatched id) r = refl

pub max_attempts-action :
    (now : ℕ) (u : Update) (r : ExecutionJob) → (action now u r).max_attempts ≡ r.max_attempts
unfolding action claim_row mark_row complete_row fail_row renew_row recover_row dispatch_row
max_attempts-action now (claim id worker lease) r = refl
max_attempts-action now (mark_running id worker) r = refl
max_attempts-action now (complete id worker results) r = refl
max_attempts-action now (fail_job id worker message backoff) r = refl
max_attempts-action now (renew_lease id worker lease) r = refl
max_attempts-action now recover r = refl
max_attempts-action now (dispatched id) r = refl
