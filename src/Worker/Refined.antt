-- ===== src/Worker/Refined.antt =====
-- Theorems on processRun of worker/pool.go as a client of the table: what it does there is a
-- history of operations, so that what holds of all histories holds of a worker's runs.
use codera.Base.{
  String, Option, none, some, List, [], ◌∷◌, ◌++◌, ◌≡◌, refl, sym, All, inl, inr, Option-cases, ◌⊎◌,
}
use codera.Domain.{ExecutionResult}
use codera.Queue.{QueueMessage}
use codera.Execution.Service.{ExecutionError}
use codera.Jobs.Job.{ExecutionJob}
use codera.Jobs.Table.{Table}
use codera.Jobs.Store.{
  StoreError, job_not_found, invalid_state, db_error, Fetched, row, failed, get, claim,
  mark_running, complete,
}
use codera.Jobs.History.{History, update, Update, run, apply, apply_update}
use codera.Jobs.Lifecycle.{IsValid}
use codera.Jobs.Runs.{run-IsValid}
use codera.Worker.Process.{
  Surroundings, at_claim, at_check, at_mark, at_fetch, at_finish, at_publish, Site, LoopEnd,
  finished, canceled, platform_failure, lease_duration, retry_backoff, execute_inputs,
  after_complete, after_loop, after_fetch, after_mark, after_check, after_claim, process_run,
}

-- How far the end of a run gets: the context is done, FailJob is called, or Complete is called
-- and returns an error or none.
pub data Finish : Type 0 where
  left : Finish
  given_up : ExecutionError → Finish
  uncompleted : List ExecutionResult → Finish
  published : List ExecutionResult → Finish

-- How far a run gets: Claim returns an error, the job is looked at once more, MarkRunning returns
-- an error, the job cannot be read, or the program is run.
pub data Progress : Type 0 where
  refused checked unmarked unread : Progress
  ran : Finish → Progress

Fetched-cases :
    (f : Fetched) → ((j : ExecutionJob) × (f ≡ row j)) ⊎ ((e : StoreError) × (f ≡ failed e))
Fetched-cases (row j) = inl (j, refl)
Fetched-cases (failed e) = inr (e, refl)

pub run-append : (h k : History) (t : Table) → run (h ++ k) t ≡ run k (run h t)
unfolding run
run-append [] k t = refl
run-append ((m, o) ∷ h) k t = run-append h k (apply m o t)

module _ (s : Surroundings) (worker : String) (msg : QueueMessage) where
  -- One write of the worker, at its moment.
  abbrev pub own : Site → Update → History
  own site u = (s.moment site, update u) ∷ []

  abbrev pub finish_history : Finish → History
  finish_history left = []
  finish_history (given_up e) =
      s.others at_finish
      ++ own at_finish (Update.fail_job msg.job_id worker (s.message_of e) retry_backoff)
  finish_history (uncompleted rs) =
      s.others at_finish ++ own at_finish (Update.complete msg.job_id worker rs)
  finish_history (published rs) =
      s.others at_finish
      ++ (own at_finish (Update.complete msg.job_id worker rs) ++ s.others at_publish)

  -- The writes of a run in their order, those of the others between them.
  abbrev pub progress_history : Progress → History
  progress_history refused = []
  progress_history checked = s.others at_check
  progress_history unmarked =
      s.others at_mark ++ own at_mark (Update.mark_running msg.job_id worker)
  progress_history unread =
      s.others at_mark ++ (own at_mark (Update.mark_running msg.job_id worker) ++ s.others at_fetch)
  progress_history (ran f) =
      s.others at_mark
      ++ (own at_mark (Update.mark_running msg.job_id worker)
          ++ (s.others at_fetch ++ finish_history f))

  abbrev pub run_history : Progress → History
  run_history p =
      s.others at_claim
      ++ (own at_claim (Update.claim msg.job_id worker lease_duration) ++ progress_history p)

  after_complete_table :
      (rs : List ExecutionResult) (t : Table)
      → let x : Table × Option StoreError =
          complete (s.moment at_finish) msg.job_id worker rs (run (s.others at_finish) t) in
        (f : Finish) × (run (finish_history f) t ≡ (after_complete s worker msg x).0)
  unfolding after_complete run apply apply_update
  after_complete_table rs t =
      elim (Option-cases
        (complete (s.moment at_finish) msg.job_id worker rs (run (s.others at_finish) t)).1) [
          | inl e ↦ (published rs, rw run-append (rw run-append (rw e refl)))
          | inr (_, e) ↦ (uncompleted rs, rw run-append (rw e refl))
        ]

  after_loop-history :
      (e : LoopEnd) (t : Table)
      → (f : Finish) × (run (finish_history f) t ≡ (after_loop s worker msg t e).0)
  unfolding after_loop run apply apply_update
  after_loop-history canceled t = (left, refl)
  after_loop-history (platform_failure e) t = (given_up e, rw run-append refl)
  after_loop-history (finished rs) t = after_complete_table rs t

  after_mark-history :
      (t : Table)
      → (p : Progress) × (run (progress_history p) t
          ≡ (after_mark s worker msg
              (mark_running (s.moment at_mark) msg.job_id worker (run (s.others at_mark) t))).0)
  unfolding after_mark after_fetch run apply apply_update
  after_mark-history t =
      let x : Table × Option StoreError =
        mark_running (s.moment at_mark) msg.job_id worker (run (s.others at_mark) t) in
      let t' : Table = run (s.others at_fetch) x.0 in
      elim (Option-cases x.1) [
        | inl e ↦ elim (Fetched-cases (get (s.moment at_fetch) msg.job_id t')) [
          | inl (j, r) ↦
              let (f, h) = after_loop-history (execute_inputs s j 0 j.inputs) t' in
              (ran f, rw run-append (rw run-append (rw run-append (rw (e, r) h))))
          | inr (_, r) ↦ (unread, rw run-append (rw run-append (rw (e, r) refl)))
        ]
        | inr (_, e) ↦ (unmarked, rw run-append (rw e refl))
      ]

  after_check_table : (t : Table) (f : Fetched) → (after_check s worker msg t f).0 ≡ t
  unfolding after_check
  after_check_table t (failed e) = refl
  after_check_table t (row j) = refl

  after_claim-history :
      (t : Table) (e : Option StoreError)
      → (p : Progress) × (run (progress_history p) t ≡ (after_claim s worker msg (t, e)).0)
  unfolding after_claim
  after_claim-history t none = after_mark-history t
  after_claim-history t (some job_not_found) = (refused, unfold run in refl)
  after_claim-history t (some db_error) = (refused, unfold run in refl)
  after_claim-history t (some invalid_state) = (checked, rw after_check_table refl)

  pub process_run-history :
      (t : Table) → (p : Progress) × (run (run_history p) t ≡ (process_run s worker msg t).0)
  unfolding process_run run apply apply_update
  process_run-history t =
      let x : Table × Option StoreError =
        claim (s.moment at_claim) msg.job_id worker lease_duration (run (s.others at_claim) t) in
      let (p, e) = after_claim-history x.0 x.1 in (p, rw run-append (rw run-append e))

  -- A run of processRun refines the histories of the table: whatever the sandbox, the queue and
  -- the database do and whatever others write in between, the table that it leaves is that of a
  -- history in which the worker writes a Claim, then at most a MarkRunning, then at most one
  -- FailJob or Complete, all of this job and under its own name, and nothing else; and every row
  -- is valid if the table grew from an empty one.
  pub process_run-IsHistory :
      (h : History)
      → (p : Progress) × ((process_run s worker msg (run h [])).0 ≡ run (h ++ run_history p) [])
        × All IsValid (process_run s worker msg (run h [])).0
  process_run-IsHistory h =
      let (p, e) = process_run-history (run h []) in
      let f : (process_run s worker msg (run h [])).0 ≡ run (h ++ run_history p) [] =
        rw run-append (sym e) in
      (p, f, rw f (run-IsValid (h ++ run_history p)))
