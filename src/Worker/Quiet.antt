-- ===== src/Worker/Quiet.antt =====
-- Theorems on processRun of worker/pool.go: a run that nothing disturbs.
use codera.Base.{
  ℕ, suc, String, Bool, true, Option, none, some, List, [], ◌∷◌, ◌++◌, ◌≡◌, refl, arith, Bool-cases,
  inl, inr, eq_iff, eq_refl,
}
use codera.Domain.{ExecutionResult}
use codera.Queue.{QueueCall, QueueMessage, ack, publish_job_update}
use codera.Jobs.Job.{ExecutionJob, is_queued}
use codera.Jobs.Table.{Table, answered, find, count_where, exec, is_due}
use codera.Jobs.Store.{
  StoreError, Fetched, row, failed, check_affected, get, claim, can_claim, claim_row, mark_running,
  can_mark, mark_row, complete, can_complete, complete_row,
}
use codera.Jobs.Rows.{find-update_where}
use codera.Jobs.History.{run}
use codera.Worker.Process.{
  Surroundings, Site, at_claim, at_mark, at_fetch, at_finish, at_publish, lease_duration, finished,
  execute_inputs, meanwhile, updates, after_complete, after_loop, after_fetch, after_mark,
  after_claim, process_run,
}
use codera.Worker.Safety.{acks, acks-publish}

-- A call that reports no error and leaves the row `r` under the key.
abbrev pub Leaves : String → ExecutionJob → Table × Option StoreError → Type 0
Leaves id r x = (x.1 ≡ none) × (find id x.0 ≡ some r)

module _ (p : ExecutionJob → Bool) (f : ExecutionJob → ExecutionJob)
    (same_id : (r : ExecutionJob) → (f r).id ≡ r.id) where
  counted :
      (id : String) (t : Table) (r : ExecutionJob)
      → find id t ≡ some r
      → p r ≡ true
      → (n : ℕ) × (count_where p t ≡ suc n)
  unfolding find count_where
  counted id [] r e h = cc
  counted id (x ∷ t) r e h = elim (Bool-cases (p x)) [
    | inl q ↦ rw q (count_where p t, refl)
    | inr q ↦ let (n, c) = counted id t r (ground arith) h in (n, ground arith)
  ]

  pub exec-Leaves :
      (id : String) (t : Table) (r : ExecutionJob)
      → find id t ≡ some r
      → p r ≡ true
      → Leaves id (f r) (check_affected (exec answered p f t))
  unfolding exec check_affected
  exec-Leaves id t r e h =
      let (n, c) = counted id t r e h in
      (ground (arith, c), ground (arith, c, e, h, find-update_where p f same_id id t))

module _ (s : Surroundings) (worker : String) (msg : QueueMessage)
    (quiet : (site : Site) → s.others site ≡ [])
    (answers : (site : Site) → (s.moment site).reply ≡ answered) (acked : s.ack_up ≡ true) where
  meanwhile_quiet : (site : Site) (t : Table) → meanwhile s worker msg site t ≡ t
  unfolding run
  meanwhile_quiet site t = rw (quiet site)

  get_quiet :
      (site : Site) (t : Table) (r : ExecutionJob)
      → find msg.job_id t ≡ some r
      → get (s.moment site) msg.job_id t ≡ row r
  unfolding get
  get_quiet site t r e = rw (answers site, e)

  acks-ack : (f : Fetched) → acks msg.id (updates s worker msg f ++ (ack s.ack_up msg.id).0) ≡ true
  unfolding updates ack publish_job_update
  acks-ack (row j) = ground (arith, acked, eq_refl msg.id)
  acks-ack (failed e) = ground (arith, acked, eq_refl msg.id)

  -- What is claimed of the table and the calls that a part of processRun leaves.
  abbrev IsFinished : ExecutionJob → Table × List QueueCall → Type 0
  IsFinished r out = (find msg.job_id out.0 ≡ some r) × (acks msg.id out.1 ≡ true)

  after_complete-IsFinished :
      (r : ExecutionJob) (x : Table × Option StoreError)
      → Leaves msg.job_id r x
      → IsFinished r (after_complete s worker msg x)
  unfolding after_complete
  after_complete-IsFinished r (t, some e) (n, h) = cc
  after_complete-IsFinished r (t, none) (n, h) = (rw (meanwhile_quiet at_publish t) h, acks-ack _)

  -- The rows that the claim, the start and the completion leave.
  abbrev pub claimed_row : ExecutionJob → ExecutionJob
  claimed_row r = claim_row (s.moment at_claim).now worker lease_duration r

  abbrev pub running_row : ExecutionJob → ExecutionJob
  running_row r = mark_row (s.moment at_mark).now (claimed_row r)

  abbrev pub completed_row : List ExecutionResult → ExecutionJob → ExecutionJob
  completed_row results r = complete_row (s.moment at_finish).now results (running_row r)

  module _ (r : ExecutionJob) (same : r.id ≡ msg.job_id) (results : List ExecutionResult)
      (executed : execute_inputs s (running_row r) 0 r.inputs ≡ finished results) where
    running_can_complete : can_complete msg.job_id worker (running_row r) ≡ true
    unfolding can_complete mark_row claim_row
    running_can_complete = ground (arith, same, eq_refl worker, eq_refl msg.job_id)

    claimed_can_mark : can_mark msg.job_id worker (claimed_row r) ≡ true
    unfolding can_mark claim_row
    claimed_can_mark = ground (arith, same, eq_refl worker, eq_refl msg.job_id)

    after_loop-IsFinished :
        (t : Table)
        → find msg.job_id t ≡ some (running_row r)
        → IsFinished (completed_row results r) (after_loop s worker msg t (finished results))
    unfolding after_loop complete
    after_loop-IsFinished t h = after_complete-IsFinished (completed_row results r) _ (
        rw (meanwhile_quiet at_finish t, answers at_finish)
          (exec-Leaves (can_complete msg.job_id worker)
            (complete_row (s.moment at_finish).now results) (unfold complete_row in λ x. refl)
            msg.job_id t (running_row r) h running_can_complete))

    after_fetch-IsFinished :
        (t : Table)
        → find msg.job_id t ≡ some (running_row r)
        → IsFinished (completed_row results r) (after_fetch s worker msg t (row (running_row r)))
    unfolding after_fetch mark_row claim_row
    after_fetch-IsFinished t h =
        rw (acks-publish s worker msg s.publish_up msg.job_id, executed) (after_loop-IsFinished t h)

    after_mark-IsFinished :
        (x : Table × Option StoreError)
        → Leaves msg.job_id (running_row r) x
        → IsFinished (completed_row results r) (after_mark s worker msg x)
    unfolding after_mark
    after_mark-IsFinished (t, some e) (n, h) = cc
    after_mark-IsFinished (t, none) (n, h) =
        rw (meanwhile_quiet at_fetch t, get_quiet at_fetch t (running_row r) h)
          (after_fetch-IsFinished t h)

    after_claim-IsFinished :
        (x : Table × Option StoreError)
        → Leaves msg.job_id (claimed_row r) x
        → IsFinished (completed_row results r) (after_claim s worker msg x)
    unfolding after_claim mark_running
    after_claim-IsFinished (t, some e) (n, h) = cc
    after_claim-IsFinished (t, none) (n, h) = after_mark-IsFinished _ (
        rw (meanwhile_quiet at_mark t, answers at_mark)
          (exec-Leaves (can_mark msg.job_id worker) (mark_row (s.moment at_mark).now)
            (unfold mark_row in λ x. refl) msg.job_id t (claimed_row r) h claimed_can_mark))

  find-id : (id : String) (t : Table) (r : ExecutionJob) → find id t ≡ some r → r.id ≡ id
  unfolding find
  find-id id [] r e = cc
  find-id id (x ∷ t) r e = ground (arith, eq_iff x.id id, find-id id t r)

  -- If nobody else writes to the table during the run, the database answers every call, XACK
  -- succeeds, the job waits in the queue and is due, and the program can be executed on all its
  -- inputs, then the worker completes the job with the results in their order, after one more
  -- attempt, and acknowledges the message.
  quiet_run_completes :
      (t : Table) (r : ExecutionJob) (results : List ExecutionResult)
      → find msg.job_id t ≡ some r
      → is_queued r.status ≡ true
      → is_due (s.moment at_claim).now r.next_retry_at ≡ true
      → execute_inputs s (running_row r) 0 r.inputs ≡ finished results
      → (find msg.job_id (process_run s worker msg t).0 ≡ some (completed_row results r))
        × (acks msg.id (process_run s worker msg t).1 ≡ true)
  unfolding process_run claim can_claim
  quiet_run_completes t r results e q d executed =
      let same = find-id msg.job_id t r e in
      after_claim-IsFinished r same results executed _ (
        rw (meanwhile_quiet at_claim t, answers at_claim)
          (exec-Leaves (can_claim (s.moment at_claim).now msg.job_id)
            (claim_row (s.moment at_claim).now worker lease_duration)
            (unfold claim_row in λ x. refl) msg.job_id t r e
            (ground (arith, same, eq_refl msg.job_id, q, d))))
