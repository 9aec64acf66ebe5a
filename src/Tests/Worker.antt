-- ===== src/Tests/Worker.antt =====
-- The theorems on workers, at a run from the claim to the acknowledgement.
use codera.Base.{arith, some, List, ◌≡◌, ◌≢◌, true, false, [], ◌∷◌, refl}
use codera.Queue.{QueueMessage}
use codera.Jobs.Table.{find}
use codera.Jobs.Rows.{Unique}
use codera.Jobs.Job.{ExecutionJob}
use codera.Jobs.History.{History, update, recover, renew_lease, claim}
use codera.Worker.Leased.{Undisturbed}
use codera.Worker.Renewal.{
  Renewal, meanwhile, ticked, done, canceled, keep_renewing, renewals_keep_lease,
}
use codera.Worker.Process.{Surroundings, Site, at_finish}
use codera.Tests.Data.{seconds, at, two_jobs, leased_job, registry, host}

-- While the worker executes, it renews its lease, and a sweep of the recovery service passes after
-- the end that the claim has set.
abbrev pub others : Site → History
others at_finish =
    (at 60, update (renew_lease "job-3" "w2" (seconds 30))) ∷ (at 85, update recover) ∷ []
others _ = []

abbrev pub surroundings : Surroundings
surroundings = record {
  others = others;
  moment = λ site. at 50;
  registry = registry;
  hosts = λ n. host;
  canceled = λ n. false;
  message_of = λ e. "failed";
  ack_up = true;
  publish_up = true;
}

abbrev pub message : QueueMessage
message = record { id = "1-0"; job_id = "job-2"; job_type = "run" }

pub two_jobs-Unique : Unique two_jobs
unfolding find
two_jobs-Unique = (refl, (refl, tt))

abbrev pub submitted : QueueMessage
submitted = record { id = "2-0"; job_id = "s1"; job_type = "submission" }

-- The worker of "job-1" renews twice; a sweep comes after the first end and another worker tries.
abbrev renewing_twice : List Renewal
renewing_twice =
    ticked (at 20)
    ∷ meanwhile ((at 45, update recover) ∷ [])
    ∷ ticked (at 46)
    ∷ meanwhile ((at 50, update (claim "job-1" "w2" (seconds 30))) ∷ (at 70, update recover) ∷ [])
    ∷ done
    ∷ []

renewals_keep_lease_example :
    ((keep_renewing "job-1" "w1" renewing_twice two_jobs).1 ≢ canceled)
    × ((s : ExecutionJob) × (find "job-1" (keep_renewing "job-1" "w1" renewing_twice two_jobs).0
          ≡ some s)
        × Undisturbed "w1" (seconds 76) (leased_job "job-1") s)
renewals_keep_lease_example =
    renewals_keep_lease "job-1" "w1" (leased_job "job-1") renewing_twice (seconds 40) two_jobs
      (unfold find in refl)
      (record {
        status = refl;
        leased = refl;
        worker = refl;
        lease = refl;
        language = refl;
        source_code = refl;
        inputs = refl;
        attempts = refl;
      })
      (refl, (refl, tt)) (tt, (omega arith, (tt, (tt, (omega arith, tt)))))
