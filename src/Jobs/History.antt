-- ===== src/Jobs/History.antt =====
-- Every write to the table `executions`, as one type of operations, and sequences of them. Each
-- operation runs at its own moment, so a sequence is any interleaving of the API, the workers
-- and the recovery service.
use codera.Base.{ℕ, String, Bool, Option, none, some, List, [], ◌∷◌, ◌≡◌, refl, if◌then◌else◌}
use codera.Domain.{ExecutionResult}
use codera.Jobs.Job.{ExecutionJob}
use codera.Jobs.Table.{Table, Moment, exec}
use codera.Jobs.Store
use codera.Jobs.Store.{
  StoreError, check_affected, can_claim, claim_row, can_mark, mark_row, can_complete, complete_row,
  can_fail, fail_row, can_renew, renew_row,
}
use codera.Jobs.Recovery.{
  is_abandoned, recover_row, recover_abandoned_jobs, has_id, dispatch_row, mark_dispatched,
}

-- The writes that are one UPDATE.
pub data Update : Type 0 where
  claim : String → String → ℕ → Update
  mark_running : String → String → Update
  complete : String → String → List ExecutionResult → Update
  fail_job : String → String → String → ℕ → Update
  renew_lease : String → String → ℕ → Update
  recover : Update
  dispatched : String → Update

pub data Operation : Type 0 where
  insert : ExecutionJob → Operation
  update : Update → Operation

unfoldable pub apply_update : Moment → Update → Table → Table
apply_update m (claim id worker lease) t = (Store.claim m id worker lease t).0
apply_update m (mark_running id worker) t = (Store.mark_running m id worker t).0
apply_update m (complete id worker results) t = (Store.complete m id worker results t).0
apply_update m (fail_job id worker message backoff) t =
    (Store.fail_job m id worker message backoff t).0
apply_update m (renew_lease id worker lease) t = (Store.renew_lease m id worker lease t).0
apply_update m recover t = recover_abandoned_jobs m t
apply_update m (dispatched id) t = mark_dispatched m id t

unfoldable pub apply : Moment → Operation → Table → Table
apply m (insert j) t = (Store.create m j t).0
apply m (update u) t = apply_update m u t

abbrev pub History : Type 0
History = List (Moment × Operation)

unfoldable pub run : History → Table → Table
run [] t = t
run ((m, o) ∷ h) t = run h (apply m o t)

-- The WHERE clause and the SET list of an update, on one row.
unfoldable pub guard : ℕ → Update → ExecutionJob → Bool
guard now (claim id worker lease) = can_claim now id
guard now (mark_running id worker) = can_mark id worker
guard now (complete id worker results) = can_complete id worker
guard now (fail_job id worker message backoff) = can_fail id worker
guard now (renew_lease id worker lease) = can_renew id worker
guard now recover = is_abandoned now
guard now (dispatched id) = has_id id

unfoldable pub action : ℕ → Update → ExecutionJob → ExecutionJob
action now (claim id worker lease) = claim_row now worker lease
action now (mark_running id worker) = mark_row now
action now (complete id worker results) = complete_row now results
action now (fail_job id worker message backoff) = fail_row now message backoff
action now (renew_lease id worker lease) = renew_row now lease
action now recover = recover_row now
action now (dispatched id) = dispatch_row now

-- What an update does to one row.
unfoldable pub effect : ℕ → Update → ExecutionJob → ExecutionJob
effect now u r = if guard now u r then action now u r else r

pub check_affected_table : (x : Table × Option ℕ) → (check_affected x).0 ≡ x.0
unfolding check_affected
check_affected_table (t, none) = refl
check_affected_table (t, some ℕ.zero) = refl
check_affected_table (t, some (ℕ.suc n)) = refl

-- The store's functions write what the clauses above say.
pub apply_update_lem :
    (m : Moment) (u : Update) (t : Table)
    → apply_update m u t ≡ (exec m.reply (guard m.now u) (action m.now u) t).0
unfolding apply_update guard action Store.claim Store.mark_running Store.complete Store.fail_job
    Store.renew_lease recover_abandoned_jobs mark_dispatched
apply_update_lem m (claim id worker lease) t = check_affected_table _
apply_update_lem m (mark_running id worker) t = check_affected_table _
apply_update_lem m (complete id worker results) t = check_affected_table _
apply_update_lem m (fail_job id worker message backoff) t = check_affected_table _
apply_update_lem m (renew_lease id worker lease) t = check_affected_table _
apply_update_lem m recover t = refl
apply_update_lem m (dispatched id) t = refl
