-- ===== src/Jobs/Noticed.antt =====
-- Theorems on the loop of recovery/service.go: a job whose worker is gone does not stay with it.
use codera.Base.{
  ℕ, ◌≤◌, ◌<◌, ◌++◌, String, true, false, some, List, [], ◌∷◌, ◌≡◌, ◌∙◌, ◌⊎◌, inl, inr, refl, arith,
  All, ltb, length, Bool-cases, eq_iff, if◌then◌else◌,
}
use codera.Queue.{appended}
use codera.Jobs.Job.{ExecutionJob, dead_lettered}
use codera.Jobs.Table.{Table, Moment, answered, refused, find}
use codera.Jobs.Store.{
  can_claim, claim_row, can_mark, mark_row, can_complete, complete_row, can_fail, fail_row,
  can_renew, renew_row,
}
use codera.Jobs.Recovery.{
  is_abandoned, recover_row, recover_abandoned_jobs, has_id, dispatch_row, dispatch_delayed_jobs,
  needs_dispatch, select_ids, not_recent, includes,
}
use codera.Jobs.Rows.{after}
use codera.Jobs.History.{
  Operation, update, Update, claim, mark_running, complete, fail_job, renew_lease, recover,
  dispatched, History, run, guard, action,
}
use codera.Jobs.Runs.{after-keeps}
use codera.Jobs.Ownership.{NotBy, Holds}
use codera.Jobs.Lifecycle.{effect-terminal}
use codera.Jobs.Sweeps.{recover-found, dispatch_sends}
use codera.Jobs.Swept.{Allows, Keeps, dispatch-Keeps, start-Keeps, goes_on, start-append}
use codera.Jobs.Ticks.{Tick, Signal, others, tick, done, Tables, sweep, start_recovery}

-- The worker writes nothing more, and no sweep finds its lease run out.
abbrev pub Unnoticed : ℕ → String → Moment → Operation → Type 0
Unnoticed until w m (update recover) = (m.now ≤ until) ⊎ (m.reply ≡ refused)
Unnoticed until w m o = NotBy w o

-- The hold, with the attempts allowed.
abbrev Held : String → ℕ → ExecutionJob → ExecutionJob → Type 0
Held w until r s = Holds w until r s × (s.max_attempts ≡ r.max_attempts)

after-Held :
    (w : String) (until : ℕ) (r : ExecutionJob) (m : Moment) (u : Update) (s : ExecutionJob)
    → Unnoticed until w m (update u)
    → Held w until r s
    → Held w until r (after m.reply (guard m.now u) (action m.now u) s)
unfolding guard action can_claim claim_row can_mark mark_row can_complete complete_row can_fail
    fail_row can_renew renew_row is_abandoned recover_row has_id dispatch_row
after-Held w until r m (claim id v lease) s b h = ground arith
after-Held w until r m (mark_running id v) s b h = ground (arith, eq_iff w v)
after-Held w until r m (complete id v results) s b h = ground (arith, eq_iff w v)
after-Held w until r m (fail_job id v message backoff) s b h = ground (arith, eq_iff w v)
after-Held w until r m (renew_lease id v lease) s b h = ground (arith, eq_iff w v)
after-Held w until r m recover s b h = ground arith
after-Held w until r m (dispatched id) s b h = ground arith

includes-append :
    (id : String) (xs ys : List String) → includes id xs ≡ true → includes id (xs ++ ys) ≡ true
includes-append id [] ys h = cc
includes-append id (x ∷ xs) ys h = ground (arith, includes-append id xs ys)

includes-append_right :
    (id : String) (xs ys : List String) → includes id ys ≡ true → includes id (xs ++ ys) ≡ true
includes-append_right id [] ys h = h
includes-append_right id (x ∷ xs) ys h = ground (arith, includes-append_right id xs ys)

Held-is_abandoned :
    (w : String) (until now : ℕ) (r s : ExecutionJob)
    → Held w until r s
    → until < now
    → is_abandoned now s ≡ true
unfolding is_abandoned
Held-is_abandoned w until now r s h lt = ground arith

recovered_is_due :
    (now later : ℕ) (s : ExecutionJob)
    → s.attempt_count < s.max_attempts
    → now ≤ later
    → not_recent later s.last_dispatched_at ≡ true
    → needs_dispatch later (recover_row now s) ≡ true
unfolding recover_row needs_dispatch
recovered_is_due now later s left le fresh = ground arith

recovered_is_dead :
    (now : ℕ) (s : ExecutionJob)
    → ltb s.attempt_count s.max_attempts ≡ false
    → (recover_row now s).status ≡ dead_lettered
unfolding recover_row
recovered_is_dead now s used = rw used refl

ltb→lt : (a b : ℕ) → ltb a b ≡ true → a < b
ltb→lt a b h = ground arith

is_dead :
    (m : Moment) (u : Update) (r : ExecutionJob)
    → r.status ≡ dead_lettered
    → (after m.reply (guard m.now u) (action m.now u) r).status ≡ dead_lettered
is_dead m u r p =
    after-keeps (λ s. s.status ≡ dead_lettered) m u r p
      ((effect-terminal m.now u r (rw p refl)).status ∙ p)

anything : (h : History) → All (λ o. Unit {0}) h
anything [] = tt
anything (o ∷ h) = (tt, anything h)

Allows-any : (es : List Signal) → All (Allows (λ m o. Unit {0})) es
Allows-any [] = tt
Allows-any (others h g ∷ es) = (anything h, Allows-any es)
Allows-any (tick k ∷ es) = ((tt, anything k.meanwhile), Allows-any es)
Allows-any (done ∷ es) = (tt, Allows-any es)

dead-start :
    (timeout : ℕ) (es : List Signal) (t : Tables) (id : String) (s : ExecutionJob)
    → find id t.executions ≡ some s
    → s.status ≡ dead_lettered
    → Keeps (λ r. r.status ≡ dead_lettered) id (start_recovery timeout es t).1.executions
dead-start timeout es t id s e d =
    start-Keeps (λ r. r.status ≡ dead_lettered) (λ m o. Unit) (λ m u r _ p. is_dead m u r p)
      (λ m i. tt) id timeout es t (Allows-any es) (s, e, d)

-- A tick after the end of the lease that succeeds: both statements on the jobs are answered, with
-- nothing written in between, each call on the queue succeeds, and at most 100 jobs are to be sent.
pub record Succeeds (until : ℕ) (k : Tick) (t : Table) : Type 0 where
  pub late : until < k.recovers.now
  pub recovered : k.recovers.reply ≡ answered
  pub alone : k.meanwhile ≡ []
  pub selected : k.selects.reply ≡ answered
  pub in_order : k.recovers.now ≤ k.selects.now
  pub enqueued : (i : String) → (k.rounds i).enqueued ≡ appended
  pub few :
      length (select_ids (needs_dispatch k.selects.now) (recover_abandoned_jobs k.recovers t)) ≤ 100

-- A message for the job was sent less than five seconds ago.
abbrev pub JustSent : ℕ → String → Table → Type 0
JustSent now id t =
    (s : ExecutionJob) × (find id t ≡ some s) × (not_recent now s.last_dispatched_at ≡ false)

-- What becomes of a job that had attempts left, or had none.
abbrev pub IsSettled : ExecutionJob → ℕ → List String → Table → Table → Type 0
IsSettled r now sent t u =
    if ltb r.attempt_count r.max_attempts
    then (includes r.id sent ≡ true) ⊎ JustSent now r.id t
    else ((s : ExecutionJob) × (find r.id u ≡ some s) × (s.status ≡ dead_lettered))

module _ (timeout : ℕ) (until : ℕ) (k : Tick) (t : Tables) (r : ExecutionJob)
    (ok : Succeeds until k t.executions) where
  sweep_sends :
      (s : ExecutionJob)
      → find r.id t.executions ≡ some s
      → is_abandoned k.recovers.now s ≡ true
      → s.attempt_count < s.max_attempts
      → not_recent k.selects.now s.last_dispatched_at ≡ true
      → includes r.id (sweep timeout k t).0 ≡ true
  unfolding sweep run
  sweep_sends s e gone left fresh = rw ok.alone (
      dispatch_sends k.any_order k.selects k.rounds (recover_abandoned_jobs k.recovers t.executions)
        r.id (recover_row k.recovers.now s) ok.selected ok.enqueued ok.few
        (recover-found k.recovers t.executions r.id s ok.recovered e gone)
        (recovered_is_due k.recovers.now k.selects.now s left ok.in_order fresh))

  sweep_buries :
      (s : ExecutionJob)
      → find r.id t.executions ≡ some s
      → is_abandoned k.recovers.now s ≡ true
      → ltb s.attempt_count s.max_attempts ≡ false
      → Keeps (λ j. j.status ≡ dead_lettered) r.id (sweep timeout k t).1.executions
  unfolding sweep run dispatch_delayed_jobs
  sweep_buries s e gone used = rw ok.alone (
      dispatch-Keeps (λ j. j.status ≡ dead_lettered) (λ m o. Unit) (λ m u j _ p. is_dead m u j p)
        (λ m i. tt) r.id k.rounds _ _
        (
          recover_row k.recovers.now s,
          recover-found k.recovers t.executions r.id s ok.recovered e gone,
          recovered_is_dead k.recovers.now s used,
        ))

  start-settles :
      (w : String) (s : ExecutionJob) (sent : List String) (rest : List Signal)
      → find r.id t.executions ≡ some s
      → Held w until r s
      → IsSettled r k.selects.now
          (sent ++ (start_recovery timeout (tick k ∷ rest) t).0)
          t.executions
          (start_recovery timeout (tick k ∷ rest) t).1.executions
  unfolding start_recovery
  start-settles w s sent rest e held =
      let gone : is_abandoned k.recovers.now s ≡ true =
        Held-is_abandoned w until k.recovers.now r s held ok.late in
      let same : ltb s.attempt_count s.max_attempts ≡ ltb r.attempt_count r.max_attempts =
        rw (held.0.attempts, held.1) refl in
      elim (Bool-cases (ltb r.attempt_count r.max_attempts)) [
        | inl left ↦ rw left (elim (Bool-cases (not_recent k.selects.now s.last_dispatched_at)) [
          | inl fresh ↦ inl (
              includes-append_right r.id sent _
                (includes-append r.id _ _ (sweep_sends s e gone (ltb→lt _ _ (same ∙ left)) fresh)))
          | inr stale ↦ inr (s, e, stale)
        ])
        | inr used ↦ rw used (
            let (j, there, dead) = sweep_buries s e gone (same ∙ used) in
            dead-start timeout rest (sweep timeout k t).1 r.id j there dead)
      ]

-- A job whose worker is gone does not stay with it. Whatever the loop of the recovery service has
-- met before, ticks that fail and writes of others included, but nothing from that worker and no
-- sweep that is carried out after the end of the lease, the next tick after that end sends the job
-- to the queue again, if both its statements are answered, nothing is written between them, its
-- calls on the queue succeed and at most 100 jobs are to be sent, and if the job has attempts left
-- and no message was sent for it in the last five seconds; a job that has used its attempts up is dead-lettered, and stays so.
pub lost_job_is_noticed :
    (timeout until : ℕ) (w : String) (before rest : List Signal) (k : Tick) (t : Tables)
    (r : ExecutionJob)
    → find r.id t.executions ≡ some r
    → Holds w until r r
    → goes_on before ≡ true
    → All (Allows (Unnoticed until w)) before
    → Succeeds until k (start_recovery timeout before t).1.executions
    → IsSettled r k.selects.now
        (start_recovery timeout (before ++ tick k ∷ rest) t).0
        (start_recovery timeout before t).1.executions
        (start_recovery timeout (before ++ tick k ∷ rest) t).1.executions
lost_job_is_noticed timeout until w before rest k t r e holds on quiet ok =
    let (s, there, held) =
      start-Keeps (Held w until r) (Unnoticed until w) (after-Held w until r) (λ m i. tt) r.id
        timeout before t quiet (r, e, (holds, refl)) in
    rw (start-append timeout before (tick k ∷ rest) t on)
      (start-settles timeout until k (start_recovery timeout before t).1 r ok w s _ rest there held)
