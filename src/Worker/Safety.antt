-- ===== src/Worker/Safety.antt =====
-- Theorems on processRun of worker/pool.go: acknowledgements.
use codera.Base.{
  ℕ, String, Bool, true, false, ◌||◌, Option, none, some, List, [], ◌∷◌, ◌++◌, ◌≡◌, refl, arith,
  str_eq, eq_iff, Option-cases, inl, inr,
}
use codera.Domain.{ExecutionResult}
use codera.Queue.{QueueCall, xack, QueueMessage, publish_job_update}
use codera.Jobs.Job.{ExecutionJob}
use codera.Jobs.Table.{Table, Reply, answered, refused, lost, Moment, find, exec}
use codera.Jobs.Store.{
  StoreError, invalid_state, check_affected, Fetched, row, failed, get, claim, mark_running,
  complete, can_complete, complete_row,
}
use codera.Jobs.Rows.{Unique, count_where_lem, find-update_where}
use codera.Jobs.History
use codera.Jobs.History.{History, Operation, update, run, apply, apply_update}
use codera.Jobs.Lifecycle.{is_terminal}
use codera.Jobs.Runs.{run-Unique}
use codera.Jobs.Ownership.{terminal_is_final}
use codera.Worker.Process.{
  Surroundings, at_claim, at_check, at_mark, at_fetch, at_finish, at_publish, lease_duration,
  LoopEnd, finished, canceled, platform_failure, execute_inputs, after_complete, after_loop,
  after_fetch, after_mark, after_check, after_claim, process_run,
}

-- Whether a message is acknowledged in a list of calls.
abbrev pub acks : String → List QueueCall → Bool
acks id [] = false
acks id (xack i ∷ calls) = str_eq i id || acks id calls
acks id (c ∷ calls) = acks id calls

-- The row of a job that is done.
abbrev pub IsDone : String → Table → Type 0
IsDone id t = (j : ExecutionJob) × (find id t ≡ some j) × (is_terminal j.status ≡ true)

complete_key : (id worker : String) (r : ExecutionJob) → can_complete id worker r ≡ true → r.id ≡ id
unfolding can_complete
complete_key id worker r h = ground (arith, eq_iff r.id id)

-- An update by key that reports no error has changed the row under its key.
module _ (id : String) (p : ExecutionJob → Bool) (f : ExecutionJob → ExecutionJob)
    (by_key : (r : ExecutionJob) → p r ≡ true → r.id ≡ id)
    (same_id : (r : ExecutionJob) → (f r).id ≡ r.id) where
  Changed : Table → Table → Type 0
  Changed t t' =
      (r : ExecutionJob) × (find id t ≡ some r) × (p r ≡ true) × (find id t' ≡ some (f r))

  exec-Changed :
      (a : Reply) (t : Table)
      → Unique t
      → (check_affected (exec a p f t)).1 ≡ none
      → Changed t (check_affected (exec a p f t)).0
  unfolding exec check_affected Changed
  exec-Changed refused t u h = cc
  exec-Changed lost t u h = cc
  exec-Changed answered t u h = elim (Option-cases (find id t)) [
    | inl e ↦ absurd (ground (arith, count_where_lem id p by_key t u, e, h))
    | inr (r, e) ↦ (
      r,
      e,
      ground (arith, count_where_lem id p by_key t u, e, h),
      ground (arith, count_where_lem id p by_key t u, e, h, find-update_where p f same_id id t),
    )
  ]

-- A Complete that reports no error has completed the row.
complete-IsDone :
    (m : Moment) (id worker : String) (results : List ExecutionResult) (t : Table)
    → Unique t
    → (complete m id worker results t).1 ≡ none
    → IsDone id (complete m id worker results t).0
unfolding complete Changed
complete-IsDone m id worker results t u h =
    let (r, e, q, e') =
      exec-Changed id (can_complete id worker) (complete_row m.now results) (complete_key id worker)
        (unfold complete_row in λ r. refl) m.reply t u h in
    (complete_row m.now results r, e', unfold complete_row in refl)

module _ (s : Surroundings) (worker : String) (msg : QueueMessage) where
  -- What is claimed of the table and the calls that a part of processRun leaves.
  abbrev Safe : Table × List QueueCall → Type 0
  Safe out = acks msg.id out.1 ≡ true → IsDone msg.job_id out.0

  IsDone-run : (h : History) (t : Table) → IsDone msg.job_id t → IsDone msg.job_id (run h t)
  IsDone-run h t (r, e, d) =
      let (r', e', o) = terminal_is_final h msg.job_id t r e d in (r', e', rw o.status d)

  get-row :
      (m : Moment) (id : String) (t : Table) (j : ExecutionJob)
      → get m id t ≡ row j
      → find id t ≡ some j
  unfolding get
  get-row m id t j h = ground arith

  get-IsDone :
      (m : Moment) (t : Table) (j : ExecutionJob)
      → get m msg.job_id t ≡ row j
      → is_terminal j.status ≡ true
      → IsDone msg.job_id t
  get-IsDone m t j h d = (j, get-row m msg.job_id t j h, d)

  no_ack-publish : (up : Bool) (id : String) → acks msg.id (publish_job_update up id).0 ≡ false
  unfolding publish_job_update
  no_ack-publish up id = ground arith

  pub acks-publish :
      (up : Bool) (id : String) (calls : List QueueCall)
      → acks msg.id ((publish_job_update up id).0 ++ calls) ≡ acks msg.id calls
  unfolding publish_job_update
  acks-publish up id calls = ground arith

  after_complete-Safe :
      (t : Table) (e : Option StoreError)
      → (e ≡ none → IsDone msg.job_id t)
      → Safe (after_complete s worker msg (t, e))
  unfolding after_complete
  after_complete-Safe t (some e) d a = cc
  after_complete-Safe t none d a = IsDone-run (s.others at_publish) t (d refl)

  after_loop-Safe : (t : Table) (e : LoopEnd) → Unique t → Safe (after_loop s worker msg t e)
  unfolding after_loop
  after_loop-Safe t canceled u a = cc
  after_loop-Safe t (platform_failure e) u a = cc
  after_loop-Safe t (finished results) u a =
      let t' = run (s.others at_finish) t in
      after_complete-Safe (complete (s.moment at_finish) msg.job_id worker results t').0 _
        (complete-IsDone (s.moment at_finish) msg.job_id worker results t'
          (run-Unique (s.others at_finish) t u))
        a

  after_fetch-Safe : (t : Table) (r : Fetched) → Unique t → Safe (after_fetch s worker msg t r)
  unfolding after_fetch
  after_fetch-Safe t (failed e) u a = cc
  after_fetch-Safe t (row job) u a =
      after_loop-Safe t (execute_inputs s job 0 job.inputs) u (rw acks-publish at a)

  after_mark-Safe :
      (t : Table) (e : Option StoreError) → Unique t → Safe (after_mark s worker msg (t, e))
  unfolding after_mark
  after_mark-Safe t (some e) u a = cc
  after_mark-Safe t none u a =
      let t' = run (s.others at_fetch) t in
      after_fetch-Safe t' (get (s.moment at_fetch) msg.job_id t')
        (run-Unique (s.others at_fetch) t u) a

  after_check-Safe :
      (t : Table) (r : Fetched)
      → ((j : ExecutionJob) → r ≡ row j → find msg.job_id t ≡ some j)
      → Safe (after_check s worker msg t r)
  unfolding after_check
  after_check-Safe t (failed e) k a = cc
  after_check-Safe t (row j) k a = (j, k j refl, ground (arith, a))

  -- The calls of the worker itself keep the keys unique: each is a history of one operation.
  one-Unique : (m : Moment) (o : Operation) (t : Table) → Unique t → Unique (apply m o t)
  one-Unique m o t u = unfold run in run-Unique ((m, o) ∷ []) t u

  mark-Unique : (m : Moment) (t : Table) → Unique t → Unique (mark_running m msg.job_id worker t).0
  mark-Unique m t u =
      unfold apply apply_update in
      one-Unique m (update (History.mark_running msg.job_id worker)) t u

  claim-Unique :
      (m : Moment) (lease : ℕ) (t : Table) → Unique t → Unique (claim m msg.job_id worker lease t).0
  claim-Unique m lease t u =
      unfold apply apply_update in one-Unique m (update (History.claim msg.job_id worker lease)) t u

  after_claim-Safe :
      (t : Table) (e : Option StoreError) → Unique t → Safe (after_claim s worker msg (t, e))
  unfolding after_claim
  after_claim-Safe t (some invalid_state) u a =
      let t' = run (s.others at_check) t in
      after_check-Safe t' (get (s.moment at_check) msg.job_id t')
        (λ j. get-row (s.moment at_check) msg.job_id t' j) a
  after_claim-Safe t (some StoreError.job_not_found) u a = cc
  after_claim-Safe t (some StoreError.db_error) u a = cc
  after_claim-Safe t none u a =
      let t' = run (s.others at_mark) t in
      after_mark-Safe (mark_running (s.moment at_mark) msg.job_id worker t').0 _
        (mark-Unique (s.moment at_mark) t' (run-Unique (s.others at_mark) t u)) a

-- From a table with unique keys, whatever other clients do to it between the worker's calls, and
-- whatever the database, the queue and the executions answer, a worker acknowledges the message of
-- a run only if the job is completed or dead-lettered in the table that it leaves.
pub ack-IsDone :
    (s : Surroundings) (worker : String) (msg : QueueMessage) (t : Table)
    → Unique t
    → acks msg.id (process_run s worker msg t).1 ≡ true
    → IsDone msg.job_id (process_run s worker msg t).0
unfolding process_run
ack-IsDone s worker msg t u =
    let t' = run (s.others at_claim) t in
    after_claim-Safe s worker msg (claim (s.moment at_claim) msg.job_id worker lease_duration t').0
      _
      (claim-Unique s worker msg (s.moment at_claim) lease_duration t'
        (run-Unique (s.others at_claim) t u))
