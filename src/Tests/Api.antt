-- ===== src/Tests/Api.antt =====
-- The theorems on the server at one request and on the back end as a whole, at a request that runs
-- a program.
use codera.Base.{ℕ, List, ◌≡◌, refl, true, false, Option, none, some, [], ◌∷◌, codes}
use codera.Repository.Rows.{returned}
use codera.Server.Api.{Server, Stores, Body, Outside, answer_request}
use codera.Server.Safe.{WritesOne, request_writes}
use codera.Queue.{QueueMessage}
use codera.Jobs.Job.{ExecutionJob}
use codera.Jobs.Table.{find}
use codera.Jobs.Store as Store
use codera.Jobs.Store.{inserted}
use codera.Jobs.Service.{create_execution, new_job}
use codera.Jobs.Lifecycle.{IsValid, SameOutcome, is_terminal}
use codera.Jobs.Life.{Grows}
use codera.Jobs.Ticks.{done}
use codera.Server.Routes.{find_route}
use codera.Server.Runs.{create_run}
use codera.Server.RunsServed.{run_row}
use codera.Server.Api.{handle}
use codera.System as System
use codera.System.{Act, act, act_all}
use codera.System.Kept.{back_end_keeps_jobs}
use codera.Tests.Worker.{surroundings}
use codera.Tests.Data.{whole, system, judge_host, comparators, seconds}
use codera.Tests.Data.{at, problem, submission, a_test, two_jobs}
use codera.Tests.Served.{service, request, only_python}
use codera.Tests.Order.{by_sort_order, by_age}

abbrev outside : Outside (Option ℕ)
outside = record {
  supported = only_python;
  store_text = λ e. codes "database";
  queue_text = λ e. codes "queue";
  service = service;
  reads_job = at 2;
  problem_reply = returned "p2";
  case_reply = returned "t1";
  case_replies = λ n. returned "t1";
  submission_reply = returned "s2";
  by_order = by_sort_order;
  by_age = by_age;
  reads_problem = true;
  reads_cases = true;
  reads_submission = true;
  analyzer = none;
  postgres = some true;
  redis = some true;
  upgrades = true;
  run_events = [];
  submission_events = [];
}

abbrev body : Body (Option ℕ)
body = record {
  job = none;
  run = some request;
  submission = none;
  problem = none;
  full_problem = none;
  test_case = none;
}

abbrev stores : Stores (Option ℕ)
stores = record {
  executions = two_jobs;
  problems = record { problems = problem ∷ []; test_cases = a_test [] ∷ [] };
  submissions = submission ∷ [];
}

abbrev server : Server
server = record { shutting_down = false }

request_writes_example :
    WritesOne outside server
      ("run" ∷ [])
      body
      stores
      (answer_request outside server "POST" ("run" ∷ []) body stores)
request_writes_example = request_writes outside server ("run" ∷ []) body stores "POST"

abbrev run_message : QueueMessage
run_message = record { id = "3-0"; job_id = "job-3"; job_type = "run" }

abbrev first : List (Act whole)
first = System.request server outside "POST" ("run" ∷ []) body stores.problems [] ∷ []

abbrev later : List (Act whole)
later =
    System.message (judge_host system) comparators surroundings "w2" run_message (at 50)
    ∷ System.recovery (seconds 60) (done ∷ []) []
    ∷ System.request server outside "POST" ("run" ∷ []) body stores.problems []
    ∷ []

back_end_keeps_jobs_example :
    IsValid (run_row service request)
    × ((s : ExecutionJob) × (find "job-3" (act_all whole later (act_all whole first [])) ≡ some s)
        × IsValid s
        × Grows (run_row service request) s
        × (is_terminal (run_row service request).status ≡ true
            → SameOutcome (run_row service request) s))
back_end_keeps_jobs_example =
    back_end_keeps_jobs whole first later "job-3" (run_row service request) (
      unfold find act_all act answer_request find_route handle create_run create_execution
        Store.create inserted new_job in
      refl)
