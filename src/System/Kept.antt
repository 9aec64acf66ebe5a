-- ===== src/System/Kept.antt =====
-- Theorems on the back end as a whole: what becomes of a job.
use codera.Base.{
  String, true, none, some, List, [], ◌∷◌, ◌≡◌, sym, ◌∙◌, ap, subst, arith, inl, inr, All,
  Bool-cases, str_eq,
}
use codera.Queue.{QueueMessage}
use codera.Jobs.Table.{Table, Moment, find}
use codera.Jobs.Job.{ExecutionJob}
use codera.Jobs.Life.{Grows, job_goes_its_way}
use codera.Jobs.History as History
use codera.Jobs.History.{
  History, Operation, insert, update, Update, recover, dispatched, run, apply, apply_update,
}
use codera.Jobs.Lifecycle.{IsValid, SameOutcome, is_terminal}
use codera.Jobs.Runs.{run-IsValid}
use codera.Judge.Comparator.{Floats, ComparatorRegistry}
use codera.Judge.Loop as Loop
use codera.Worker.Process.{Surroundings}
use codera.Worker.Dispatch.{process_submission, process_job}
use codera.Worker.Panics.{recovered, process_job_safely}
use codera.Worker.Refined.{process_run-history, run_history}
use codera.System.Requests.{request-Writes}
use codera.System.Histories.{Writes, nothing, one, all_of, followed_by, start_recovery-Writes}
use codera.System.{Act, request, message, crash, recovery, act, act_all}

module _ (f : Floats) (h : Loop.Host f.Float) (comparators : ComparatorRegistry) (s : Surroundings)
    (worker : String) (msg : QueueMessage) where
  process_job-Writes : (t : Table) → Writes t (process_job f h comparators s worker msg t).table
  unfolding process_job process_submission
  process_job-Writes t = elim (Bool-cases (str_eq msg.job_type "submission")) [
    | inl e ↦ rw e (nothing t)
    | inr e ↦
        let (p, d) = process_run-history s worker msg t in
        rw e (record { history = run_history s worker msg p; ends = d })
  ]

  message-Writes :
      (m : Moment) (t : Table)
      → Writes t (process_job_safely f h comparators s worker msg none m t).table
  unfolding process_job_safely recovered apply apply_update
  message-Writes m t =
      let p = process_job f h comparators s worker msg t in
      elim (Bool-cases p.panics) [
        | inl e ↦ rw e (
            followed_by (process_job-Writes t) (
              one m
                (update (History.fail_job msg.job_id worker "Worker crashed during execution" 0))
                p.table))
        | inr e ↦ rw e (process_job-Writes t)
      ]

  crash-Writes :
      (k : History) (m : Moment) (t : Table)
      → Writes t (process_job_safely f h comparators s worker msg (some k) m t).table
  unfolding process_job_safely recovered apply apply_update
  crash-Writes k m t = followed_by (all_of k t) (
      one m (update (History.fail_job msg.job_id worker "Worker crashed during execution" 0))
        (run k t))

module _ (f : Floats) where
  act-Writes : (a : Act f) (t : Table) → Writes t (act f a t)
  unfolding act
  act-Writes (request s o method path b tables submissions) t = request-Writes o s b method path _
  act-Writes (message h comparators s worker msg m) t =
      message-Writes f h comparators s worker msg m t
  act-Writes (crash h comparators s worker msg k m) t =
      crash-Writes f h comparators s worker msg k m t
  act-Writes (recovery timeout es workers) t = start_recovery-Writes timeout es _

  acts-Writes : (acts : List (Act f)) (t : Table) → Writes t (act_all f acts t)
  unfolding act_all
  acts-Writes [] t = nothing t
  acts-Writes (a ∷ later) t = followed_by (act-Writes a t) (acts-Writes later (act f a t))

find-IsValid :
    (id : String) (t : Table) (r : ExecutionJob) → All IsValid t → find id t ≡ some r → IsValid r
unfolding find
find-IsValid id [] r a e = absurd (ground (arith, e))
find-IsValid id (j ∷ t) r a e = elim (Bool-cases (str_eq j.id id)) [
  | inl h ↦ let q : some j ≡ some r = rw h at e in let k : j ≡ r = cc in rw (← k) a.0
  | inr h ↦ find-IsValid id t r a.1 (rw h at e)
]

-- The back end keeps its jobs: take any requests, messages and ticks from an empty table on, with
-- any answers from outside, and with runs that panic among them. A job that is found then is valid,
-- and whatever requests, messages and ticks follow, it is found and valid afterwards: its status
-- has gone a way through the status diagram, its attempts have not become fewer, the limit on them
-- and the time of its creation are as they were, and a job that was completed or dead-lettered has
-- kept its outcome.
pub back_end_keeps_jobs :
    (f : Floats) (first later : List (Act f)) (id : String) (r : ExecutionJob)
    → find id (act_all f first []) ≡ some r
    → IsValid r
      × ((s : ExecutionJob) × (find id (act_all f later (act_all f first [])) ≡ some s)
          × IsValid s
          × Grows r s
          × (is_terminal r.status ≡ true → SameOutcome r s))
back_end_keeps_jobs f first later id r e =
    let w = acts-Writes f first [] in
    let x = acts-Writes f later (act_all f first []) in
    let valid : All IsValid (act_all f first []) =
      subst (All IsValid) w.ends (run-IsValid w.history) in
    let (s, k, grows, same) = job_goes_its_way x.history id (act_all f first []) r e in
    let k' : find id (act_all f later (act_all f first [])) ≡ some s =
      ap (find id) (sym x.ends) ∙ k in
    let y = followed_by w x in
    let after : All IsValid (act_all f later (act_all f first [])) =
      subst (All IsValid) y.ends (run-IsValid y.history) in
    (find-IsValid id _ r valid e, (s, k', find-IsValid id _ s after k', grows, same))
