-- ===== src/Tests/Jobs.antt =====
-- The theorems on jobs, at concrete tables and histories.
use codera.Base.{
  ◌≤◌, String, Bool, true, false, some, List, [], ◌∷◌, ◌≡◌, ◌≢◌, eq_iff, ◌⊎◌, refl, inl, arith,
}
use codera.Domain.{JobRequest}
use codera.Queue.{appended, Entry, enqueue}
use codera.Jobs.Job.{ExecutionJob, clone, JobStatus}
use codera.Jobs.Table.{Table, Moment, lost, find}
use codera.Jobs.Store
use codera.Jobs.Store.{row, get, inserted, find_queued}
use codera.Jobs.Service.{Surroundings, create_execution}
use codera.Jobs.Rows.{Unique}
use codera.Jobs.History.{
  History, insert, update, claim, mark_running, complete, fail_job, recover, run,
}
use codera.Jobs.Lifecycle.{IsValid}
use codera.Jobs.Ownership.{Holds, lease_protects}
use codera.Jobs.Contract.{
  contract, postgres_store, Call, creates, gets, claims, marks, completes, fails, renews, call_all,
}
use codera.Jobs.Contracted.{view, postgres_store-Refines}
use codera.Jobs.Retries.{created_job_never_retried}
use codera.Jobs.Messages.{recover_message-IsKept, calls_at, IsKept}
use codera.Tests.Data.{seconds, at, new_job, leased_job, two_jobs, source}

two_jobs-Unique : Unique two_jobs
unfolding find
two_jobs-Unique = (refl, (refl, tt))

-- Another worker tries everything on a job of "w1", and a sweep passes, before the lease ends.
abbrev intrusion : History
intrusion =
    (at 20, update (claim "job-1" "w2" (seconds 30)))
    ∷ (at 21, update (mark_running "job-1" "w2"))
    ∷ (at 22, update (complete "job-1" "w2" []))
    ∷ (at 40, update recover)
    ∷ []

w2-ne-w1 : ◌≢◌ {A = String} "w2" "w1"
w2-ne-w1 e = let p : false ≡ true = (eq_iff "w2" "w1").1 e in cc

lease_protects_example :
    (s : ExecutionJob) × (find "job-1" (run intrusion two_jobs) ≡ some s)
    × Holds "w1" (seconds 40) (leased_job "job-1") s
lease_protects_example =
    lease_protects intrusion "job-1" "w1" (seconds 40) two_jobs (leased_job "job-1")
      (unfold find in refl)
      (record {
        status = refl;
        leased = refl;
        worker = refl;
        lease = refl;
        attempts = refl;
        results = refl;
      })
      (
        (omega arith, tt),
        ((omega arith, w2-ne-w1), ((omega arith, w2-ne-w1), ((omega arith, tt), tt))),
      )

abbrev life : History
life =
    (at 1, insert (new_job "job-1"))
    ∷ (at 2, insert (new_job "job-2"))
    ∷ (at 3, update (claim "job-1" "w1" (seconds 30)))
    ∷ (at 4, update (mark_running "job-1" "w1"))
    ∷ (record { now = seconds 5; reply = lost }, update (fail_job "job-1" "w1" "no docker" 0))
    ∷ (at 6, update (claim "job-2" "w1" (seconds 30)))
    ∷ (at 60, update recover)
    ∷ []

-- A job is created and looked up, taken and finished by one worker while another tries to, with
-- one answer lost.
abbrev calls : List (Moment × Call)
calls =
    (at 1, creates (new_job "job-7"))
    ∷ (at 2, gets "job-7")
    ∷ (at 3, claims "job-7" "w1" (seconds 30))
    ∷ (record { now = seconds 4; reply = lost }, marks "job-7" "w1")
    ∷ (at 5, marks "job-7" "w2")
    ∷ (at 6, completes "job-7" "w1" [])
    ∷ (at 7, renews "job-7" "w1" (seconds 30))
    ∷ (at 8, fails "job-9" "w1" "no docker" 0)
    ∷ []

postgres_store-Refines_example :
    (view (call_all postgres_store calls two_jobs).0 ≡ (call_all contract calls (view two_jobs)).0)
    × ((call_all postgres_store calls two_jobs).1 ≡ (call_all contract calls (view two_jobs)).1)
postgres_store-Refines_example = postgres_store-Refines calls two_jobs two_jobs-Unique

abbrev any_language : String → Bool
any_language lang = true

abbrev surroundings : Surroundings
surroundings = record {
  fresh_id = "job-9";
  clock = 0;
  insert_at = at 1;
  queue_closed = false;
  add_reply = appended;
}

abbrev job_request : JobRequest
job_request = record { language = "python"; source_code = source; inputs = [] }

abbrev created : ExecutionJob
created = record (new_job "job-9") { inputs = []; max_attempts = 0 }

abbrev created_table : Table
created_table = (create_execution any_language surroundings job_request two_jobs).0

created_job_never_retried_example :
    (r : ExecutionJob) × (find "job-9" (run intrusion created_table) ≡ some r)
    × (r.attempt_count ≤ 1)
    × (r.status ≡ JobStatus.queued → r.attempt_count ≡ 0)
created_job_never_retried_example =
    created_job_never_retried any_language surroundings job_request two_jobs created intrusion
      (unfold create_execution Store.create find enqueue clone inserted in refl)

abbrev entry : String → Entry
entry id = record { id = "1-0"; job_id = some id; job_type = some "run" }

leased_job-IsValid : IsValid (leased_job "job-1")
leased_job-IsValid = record {
  owner = refl;
  lease = refl;
  claimed_stamp = λ e. refl;
  started_stamp = λ e. refl;
  completed_stamp = λ e. cc;
  dead_stamp = λ e. cc;
  exhausted = λ e. cc;
  attempted = λ e. omega arith;
  budget = inl (omega arith);
  requeued = λ e. cc;
}

recover_message-IsKept_example :
    IsKept
      (entry "job-1")
      false
      appended
      (leased_job "job-1")
      (calls_at (row (leased_job "job-1")) false appended (entry "job-1"))
    ⊎ ((calls_at (row (leased_job "job-1")) false appended (entry "job-1") ≡ [])
        × ((JobStatus.running ≡ JobStatus.claimed) ⊎ (JobStatus.running ≡ JobStatus.dead_lettered)))
recover_message-IsKept_example =
    recover_message-IsKept (entry "job-1") (leased_job "job-1") false appended refl
      leased_job-IsValid
