-- ===== src/System/Histories.antt =====
-- Theorems on the back end as a whole: what it writes to the table `executions`.
use codera.Base.{
  ℕ, String, Bool, List, [], ◌∷◌, ◌++◌, ◌≡◌, refl, sym, ◌∙◌, ap, arith, ◌⊎◌, inl, inr, Bool-cases,
}
use codera.Queue.{succeeds}
use codera.Domain.{Language, JobRequest}
use codera.Jobs.Table.{Table, Moment}
use codera.Jobs.Store
use codera.Jobs.Service as Service
use codera.Jobs.Service.{create_execution, new_job}
use codera.Jobs.Recovery.{
  Round, recover_abandoned_jobs, mark_dispatched, dispatch_loop, dispatch_delayed_jobs, delayed_ids,
}
use codera.Jobs.History.{
  History, Operation, insert, update, recover, dispatched, run, apply, apply_update,
}
use codera.Jobs.Ticks.{Tick, Signal, others, tick, done, Tables, sweep, start_recovery}
use codera.Worker.Refined.{run-append}

-- The second table is that of a history from the first.
pub record Writes (t u : Table) : Type 0 where
  pub history : History
  pub ends : run history t ≡ u

pub nothing : (t : Table) → Writes t t
unfolding run
nothing t = record { history = []; ends = refl }

pub one : (m : Moment) (o : Operation) (t : Table) → Writes t (apply m o t)
unfolding run
one m o t = record { history = (m, o) ∷ []; ends = refl }

pub all_of : (h : History) (t : Table) → Writes t (run h t)
all_of h t = record { history = h; ends = refl }

pub followed_by : {t u v : Table} → Writes t u → Writes u v → Writes t v
followed_by w x = record {
  history = w.history ++ x.history;
  ends = run-append w.history x.history _ ∙ (ap (run x.history) w.ends ∙ x.ends);
}

to : {t u v : Table} → v ≡ u → Writes t u → Writes t v
to e w = record { history = w.history; ends = w.ends ∙ sym e }

module _ (round : String → Round) where
  dispatch_loop-Writes : (ids : List String) (t : Table) → Writes t (dispatch_loop round ids t).1
  unfolding dispatch_loop apply apply_update
  dispatch_loop-Writes [] t = nothing t
  dispatch_loop-Writes (id ∷ ids) t = elim (Bool-cases (succeeds (round id).enqueued)) [
    | inl e ↦ rw e (
        followed_by (one (round id).at (update (dispatched id)) t)
          (dispatch_loop-Writes ids (mark_dispatched (round id).at id t)))
    | inr e ↦ rw e (dispatch_loop-Writes ids t)
  ]

sweep-Writes :
    (timeout : ℕ) (k : Tick) (t : Tables) → Writes t.executions (sweep timeout k t).1.executions
unfolding sweep dispatch_delayed_jobs apply apply_update
sweep-Writes timeout k t =
    let swept : Table = recover_abandoned_jobs k.recovers t.executions in
    followed_by (one k.recovers (update recover) t.executions) (
      followed_by (all_of k.meanwhile swept) (
        dispatch_loop-Writes k.rounds (delayed_ids k.any_order k.selects (run k.meanwhile swept))
          (run k.meanwhile swept)))

pub start_recovery-Writes :
    (timeout : ℕ) (es : List Signal) (t : Tables)
    → Writes t.executions (start_recovery timeout es t).1.executions
unfolding start_recovery
start_recovery-Writes timeout [] t = nothing t.executions
start_recovery-Writes timeout (done ∷ es) t = nothing t.executions
start_recovery-Writes timeout (others h g ∷ es) t =
    followed_by (all_of h t.executions) (start_recovery-Writes timeout es _)
start_recovery-Writes timeout (tick k ∷ es) t =
    followed_by (sweep-Writes timeout k t) (start_recovery-Writes timeout es (sweep timeout k t).1)

-- What CreateExecution leaves is the table before, or that after the INSERT.
create_execution-table :
    (supported : Language → Bool) (s : Service.Surroundings) (req : JobRequest) (t : Table)
    → ((create_execution supported s req t).0 ≡ t)
      ⊎ ((create_execution supported s req t).0 ≡ (Store.create s.insert_at (new_job s req) t).0)
unfolding create_execution
create_execution-table supported s req t = ground arith

pub create_execution-Writes :
    (supported : Language → Bool) (s : Service.Surroundings) (req : JobRequest) (t : Table)
    → Writes t (create_execution supported s req t).0
unfolding apply
create_execution-Writes supported s req t = elim (create_execution-table supported s req t) [
  | inl e ↦ to e (nothing t)
  | inr e ↦ to e (one s.insert_at (insert (new_job s req)) t)
]
