-- ===== src/Jobs/Sweeps.antt =====
-- Theorems on the sweeps of recovery/service.go over the table `executions`.
use codera.Base.{
  take-all, ℕ, ◌≤◌, ◌<◌, String, Bool, true, false, some, List, [], ◌∷◌, ◌≡◌, ◌≢◌, refl, arith,
  if◌then◌else◌, All, Bool-cases, inl, inr, length, ltb, ap,
}
use codera.Queue.{appended}
use codera.Jobs.Job.{ExecutionJob, queued, dead_lettered}
use codera.Jobs.Table.{Table, Reply, Moment, answered, refused, lost, find, exec, update_where}
use codera.Jobs.Recovery.{
  is_abandoned, recover_row, recover_abandoned_jobs, needs_dispatch, select_ids, delayed_ids,
  mark_dispatched, includes, AnyOrder, Round, dispatch_loop, dispatch_delayed_jobs,
}
use codera.Jobs.Rows.{find-exec}

recover_row_done : (now : ℕ) (r : ExecutionJob) → is_abandoned now (recover_row now r) ≡ false
unfolding is_abandoned recover_row
recover_row_done now r = ground arith

none_abandoned :
    (now : ℕ) (t : Table)
    → All (λ r. is_abandoned now r ≡ false) (update_where (is_abandoned now) (recover_row now) t)
unfolding update_where
none_abandoned now [] = tt
none_abandoned now (r ∷ t) = elim (Bool-cases (is_abandoned now r)) [
  | inl e ↦ rw e (recover_row_done now r, none_abandoned now t)
  | inr e ↦ rw e (e, none_abandoned now t)
]

exec_none_abandoned :
    (a : Reply) (now : ℕ) (t : Table)
    → a ≢ refused
    → All (λ r. is_abandoned now r ≡ false) (exec a (is_abandoned now) (recover_row now) t).0
unfolding exec
exec_none_abandoned answered now t h = none_abandoned now t
exec_none_abandoned lost now t h = none_abandoned now t
exec_none_abandoned refused now t h = absurd (h refl)

-- After a sweep that the database carries out no row has a lease that has run out.
sweep_leaves_none :
    (m : Moment) (t : Table)
    → m.reply ≢ refused
    → All (λ r. is_abandoned m.now r ≡ false) (recover_abandoned_jobs m t)
unfolding recover_abandoned_jobs
sweep_leaves_none m t h = exec_none_abandoned m.reply m.now t h

dispatch_loop_sent :
    (round : String → Round) (ids : List String) (t : Table)
    → ((id : String) → (round id).enqueued ≡ appended)
    → (dispatch_loop round ids t).0 ≡ ids
unfolding dispatch_loop
dispatch_loop_sent round [] t h = refl
dispatch_loop_sent round (id ∷ ids) t h =
    rw (h id)
      (ap (λ l. id ∷ l) (dispatch_loop_sent round ids (mark_dispatched (round id).at id t) h))

select_ids-found :
    (p : ExecutionJob → Bool) (id : String) (t : Table) (r : ExecutionJob)
    → find id t ≡ some r
    → p r ≡ true
    → includes id (select_ids p t) ≡ true
unfolding find select_ids
select_ids-found p id [] r e h = cc
select_ids-found p id (x ∷ t) r e h = ground (arith, select_ids-found p id t r)

-- A dispatch sweep whose statement is answered and whose calls on the queue succeed sends a
-- message for every queued job that is due and was not sent in the last five seconds, if there
-- are at most 100 of them.
pub dispatch_sends :
    (o : AnyOrder) (m : Moment) (round : String → Round) (t : Table) (id : String)
    (r : ExecutionJob)
    → m.reply ≡ answered
    → ((i : String) → (round i).enqueued ≡ appended)
    → length (select_ids (needs_dispatch m.now) t) ≤ 100
    → find id t ≡ some r
    → needs_dispatch m.now r ≡ true
    → includes id (dispatch_delayed_jobs o m round t).0 ≡ true
unfolding dispatch_delayed_jobs delayed_ids
dispatch_sends o m round t id r a up few e need = rw a (
    rw
      (
        dispatch_loop_sent round _ t up,
        take-all 100 (o.arrange (select_ids (needs_dispatch m.now) t))
            (rw (o.arrange-length _) few),
        o.arrange-includes id _,
      )
      (select_ids-found (needs_dispatch m.now) id t r e need))

-- What the recovery sweep makes of the row under one key.
pub recover-found :
    (m : Moment) (t : Table) (id : String) (r : ExecutionJob)
    → m.reply ≡ answered
    → find id t ≡ some r
    → is_abandoned m.now r ≡ true
    → find id (recover_abandoned_jobs m t) ≡ some (recover_row m.now r)
unfolding recover_abandoned_jobs
recover-found m t id r a e gone =
    rw
      (find-exec (is_abandoned m.now) (recover_row m.now) (unfold recover_row in λ s. refl) m.reply
        id t)
      (rw (e, a) (rw gone))

recover_row_due :
    (now : ℕ) (r : ExecutionJob)
    → r.attempt_count < r.max_attempts
    → needs_dispatch now (record r { status = queued; next_retry_at = some now }) ≡ true
    → needs_dispatch now (recover_row now r) ≡ true
unfolding recover_row needs_dispatch
recover_row_due now r h n = ground arith

-- A job whose lease has run out and that has attempts left is sent to the queue again by the two
-- sweeps that follow each other in one tick, if it was not sent in the last five seconds, at most
-- 100 jobs are to be sent, the database answers and the calls on the queue succeed; one that has
-- used its attempts up is dead-lettered.
lost_job_is_settled :
    (o : AnyOrder) (m : Moment) (round : String → Round) (t : Table) (id : String)
    (r : ExecutionJob)
    → m.reply ≡ answered
    → ((i : String) → (round i).enqueued ≡ appended)
    → length (select_ids (needs_dispatch m.now) (recover_abandoned_jobs m t)) ≤ 100
    → find id t ≡ some r
    → is_abandoned m.now r ≡ true
    → needs_dispatch m.now (record r { status = queued; next_retry_at = some m.now }) ≡ true
    → (if ltb r.attempt_count r.max_attempts
        then includes id (dispatch_delayed_jobs o m round (recover_abandoned_jobs m t)).0 ≡ true
        else ((s : ExecutionJob) × (find id (recover_abandoned_jobs m t) ≡ some s)
            × (s.status ≡ dead_lettered)))
lost_job_is_settled o m round t id r a up few e gone fresh =
    elim (Bool-cases (ltb r.attempt_count r.max_attempts)) [
      | inl left ↦ rw left (
          dispatch_sends o m round (recover_abandoned_jobs m t) id (recover_row m.now r) a up few
            (recover-found m t id r a e gone) (recover_row_due m.now r (ground arith) fresh))
      | inr used ↦
          rw used
            (recover_row m.now r, recover-found m t id r a e gone, unfold recover_row in rw used)
    ]
