-- ===== src/Jobs/Swept.antt =====
-- Lemmas on the loop of recovery/service.go: what operations keep, the loop keeps, and the loop
-- in two stretches.
use codera.Base.{
  ℕ, ◌++◌, String, Bool, true, false, some, List, [], ◌∷◌, ◌≡◌, inl, inr, refl, All, Bool-cases,
  append_assoc,
}
use codera.Queue.{succeeds}
use codera.Jobs.Job.{ExecutionJob}
use codera.Jobs.Table.{Table, Moment, find}
use codera.Jobs.Recovery.{
  Round, recover_abandoned_jobs, mark_dispatched, dispatch_loop, dispatch_delayed_jobs,
}
use codera.Jobs.Rows.{after}
use codera.Jobs.History.{
  Operation, update, Update, recover, dispatched, History, run, apply, apply_update, guard, action,
}
use codera.Jobs.Runs.{find-run_replies}
use codera.Jobs.Ticks.{Tick, Signal, others, tick, done, Tables, sweep, start_recovery}

-- What the loop meets, if the predicate holds of all operations on the table in it.
abbrev pub Allows : (Moment → Operation → Type 0) → Signal → Type 0
Allows Q (others h g) = All (λ o. Q o.0 o.1) h
Allows Q (tick k) = Q k.recovers (update recover) × All (λ o. Q o.0 o.1) k.meanwhile
Allows Q done = Unit

-- The row is there, and the predicate holds of it.
abbrev pub Keeps : (ExecutionJob → Type 0) → String → Table → Type 0
Keeps P id t = (s : ExecutionJob) × (find id t ≡ some s) × P s

-- A predicate on the row under one key that operations keep is kept by the loop.
module _ (P : ExecutionJob → Type 0) (Q : Moment → Operation → Type 0)
    (keep : (m : Moment) (u : Update) (r : ExecutionJob)
      → Q m (update u)
      → P r
      → P (after m.reply (guard m.now u) (action m.now u) r))
    (marks : (m : Moment) (i : String) → Q m (update (dispatched i))) (id : String) where
  run-Keeps :
      (h : History) (t : Table) → All (λ o. Q o.0 o.1) h → Keeps P id t → Keeps P id (run h t)
  run-Keeps h t q (s, e, p) = find-run_replies P Q keep h id t q e p

  recover-Keeps :
      (m : Moment) (t : Table)
      → Q m (update recover)
      → Keeps P id t
      → Keeps P id (recover_abandoned_jobs m t)
  recover-Keeps m t q x =
      unfold run apply apply_update in run-Keeps ((m, update recover) ∷ []) t (q, tt) x

  mark-Keeps :
      (m : Moment) (i : String) (t : Table) → Keeps P id t → Keeps P id (mark_dispatched m i t)
  mark-Keeps m i t x =
      unfold run apply apply_update in
      run-Keeps ((m, update (dispatched i)) ∷ []) t (marks m i, tt) x

  pub dispatch-Keeps :
      (round : String → Round) (ids : List String) (t : Table)
      → Keeps P id t
      → Keeps P id (dispatch_loop round ids t).1
  unfolding dispatch_loop
  dispatch-Keeps round [] t x = x
  dispatch-Keeps round (i ∷ ids) t x = elim (Bool-cases (succeeds (round i).enqueued)) [
    | inl e ↦ rw e (dispatch-Keeps round ids _ (mark-Keeps (round i).at i t x))
    | inr e ↦ rw e (dispatch-Keeps round ids t x)
  ]

  sweep-Keeps :
      (timeout : ℕ) (k : Tick) (t : Tables)
      → Allows Q (tick k)
      → Keeps P id t.executions
      → Keeps P id (sweep timeout k t).1.executions
  unfolding sweep dispatch_delayed_jobs
  sweep-Keeps timeout k t (q, qs) x =
      dispatch-Keeps k.rounds _ _
        (run-Keeps k.meanwhile _ qs (recover-Keeps k.recovers t.executions q x))

  pub start-Keeps :
      (timeout : ℕ) (es : List Signal) (t : Tables)
      → All (Allows Q) es
      → Keeps P id t.executions
      → Keeps P id (start_recovery timeout es t).1.executions
  unfolding start_recovery
  start-Keeps timeout [] t q x = x
  start-Keeps timeout (done ∷ es) t q x = x
  start-Keeps timeout (others h g ∷ es) t (q, qs) x =
      start-Keeps timeout es _ qs (run-Keeps h t.executions q x)
  start-Keeps timeout (tick k ∷ es) t (q, qs) x =
      start-Keeps timeout es _ qs (sweep-Keeps timeout k t q x)

abbrev pub goes_on : List Signal → Bool
goes_on [] = true
goes_on (done ∷ es) = false
goes_on (e ∷ es) = goes_on es

-- The loop met in two stretches.
pub start-append :
    (timeout : ℕ) (es fs : List Signal) (t : Tables)
    → goes_on es ≡ true
    → let x : List String × Tables × Bool = start_recovery timeout es t in
      let y : List String × Tables × Bool = start_recovery timeout fs x.1 in
      start_recovery timeout (es ++ fs) t ≡ (x.0 ++ y.0, y.1, y.2)
unfolding start_recovery
start-append timeout [] fs t g = refl
start-append timeout (done ∷ es) fs t g = cc
start-append timeout (others h j ∷ es) fs t g = start-append timeout es fs _ g
start-append timeout (tick k ∷ es) fs t g =
    rw (start-append timeout es fs _ g) (rw append_assoc refl)
