-- ===== src/Tests/Recovery.antt =====
-- The theorems on the services that run beside the workers, at concrete events.
use codera.Base.{
  ℕ, some, str_eq, if◌then◌else◌, Bool-cases, inl, false, String, [], ◌∷◌, ◌++◌, ◌≡◌, true, inr,
  List, refl, arith, All, eq_iff,
}
use codera.Queue.{appended, Entry}
use codera.Jobs.Pages.{
  PendingRecovery, new_pending_recovery, claim_args, batch, Sweep, run_recovery,
}
use codera.Jobs.Scanned.{IsPage, Ends, run_recovery-Ends}
use codera.Jobs.Store.{row, can_claim, claim_row, get}
use codera.Jobs.Table.{find, count_where, refused, exec, update_where, Table, Moment}
use codera.Jobs.Recovery.{
  AnyOrder, Round, is_abandoned, needs_dispatch, select_ids, recover_abandoned_jobs,
  dispatch_delayed_jobs, delayed_ids, dispatch_loop, recover_row,
}
use codera.Jobs.History.{
  History, insert, update, claim, apply_update, run, apply, complete, mark_running,
}
use codera.Jobs.Lifecycle.{IsValid}
use codera.Jobs.Ticks.{Tick, Signal, others, tick, done, Tables, start_recovery, sweep}
use codera.Jobs.Ownership.{Holds}
use codera.Jobs.Store as Store
use codera.Jobs.Snapshot.{Apart, Snapshot, run_snapshot, nothing, left, right, interleavings_agree}
use codera.Jobs.Noticed.{IsSettled, Succeeds, lost_job_is_noticed}
use codera.Worker.Process.{process_run}
use codera.Worker.Refined.{Progress, run_history, process_run-IsHistory}
use codera.Tests.Data.{seconds, at, new_job, leased_job, two_jobs}
use codera.Tests.Worker.{surroundings, message}

-- The database takes the rows as they stand.
abbrev as_they_stand : AnyOrder
as_they_stand = record {
  arrange = λ xs. xs;
  arrange-includes = λ id xs. refl;
  arrange-length = λ xs. refl;
}

abbrev sent : String → Round
sent id = record { enqueued = appended; at = at 50 }

-- The database refuses the sweep of the first tick.
abbrev failing : Tick
failing = record {
  recovers = record { now = seconds 45; reply = refused };
  meanwhile = [];
  selects = record { now = seconds 45; reply = refused };
  any_order = as_they_stand;
  rounds = sent;
  marks = at 45;
}

abbrev working : Tick
working = record {
  recovers = at 50;
  meanwhile = [];
  selects = at 50;
  any_order = as_they_stand;
  rounds = sent;
  marks = at 50;
}

abbrev intruder : History
intruder = (at 47, update (claim "job-1" "w2" (seconds 30))) ∷ []

abbrev tables : Tables
tables = record { executions = two_jobs; workers = [] }

abbrev before : List Signal
before = tick failing ∷ others intruder [] ∷ []

leased_job-Holds : Holds "w1" (seconds 40) (leased_job "job-1") (leased_job "job-1")
leased_job-Holds = record {
  status = refl;
  leased = refl;
  worker = refl;
  lease = refl;
  attempts = refl;
  results = refl;
}

working-Succeeds :
    Succeeds (seconds 40) working (start_recovery (seconds 60) before tables).1.executions
unfolding start_recovery sweep dispatch_delayed_jobs delayed_ids dispatch_loop
    recover_abandoned_jobs exec is_abandoned update_where recover_row needs_dispatch select_ids run
    apply apply_update Store.claim can_claim claim_row Store.check_affected count_where
working-Succeeds = record {
  late = omega arith;
  recovered = refl;
  alone = refl;
  selected = refl;
  in_order = omega arith;
  enqueued = λ i. refl;
  few = omega arith;
}

lost_job_is_noticed_example :
    IsSettled
      (leased_job "job-1")
      (seconds 50)
      (start_recovery (seconds 60) (before ++ tick working ∷ done ∷ []) tables).0
      (start_recovery (seconds 60) before tables).1.executions
      (start_recovery (seconds 60) (before ++ tick working ∷ done ∷ []) tables).1.executions
lost_job_is_noticed_example =
    lost_job_is_noticed (seconds 60) (seconds 40) "w1" before (done ∷ []) working tables
      (leased_job "job-1") (unfold find in refl) leased_job-Holds refl
      ((inr refl, tt), ((tt, tt), tt)) working-Succeeds

abbrev life : History
life = (at 1, insert (new_job "job-2")) ∷ []

process_run-IsHistory_example :
    (p : Progress) × ((process_run surroundings "w2" message (run life [])).0
      ≡ run (life ++ run_history surroundings "w2" message p) [])
    × All IsValid (process_run surroundings "w2" message (run life [])).0
process_run-IsHistory_example = process_run-IsHistory surroundings "w2" message life

-- Redis gives three stale messages in two pages.
abbrev pending : String → Entry
pending id = record { id = id; job_id = some "job-1"; job_type = some "run" }

abbrev stale : String → List Entry
stale cursor =
    if str_eq cursor "-"
    then pending "1-0" ∷ pending "2-0" ∷ pending "3-0" ∷ []
    else pending "3-0" ∷ []

abbrev pages : Sweep
pages = record {
  answer = λ n args.
      if str_eq args.start "-"
      then batch (pending "1-0" ∷ pending "2-0" ∷ []) "3-0"
      else batch (pending "3-0" ∷ []) "0-0";
  meet = λ e. record {
    fetched = row (leased_job "job-1");
    ack_up = true;
    queue_closed = false;
    add_reply = appended;
  };
}

pending_recovery : PendingRecovery
pending_recovery = new_pending_recovery "executions" "workers" (seconds 60) 2

pages-IsPage :
    (n : ℕ) (start : String)
    → IsPage stale (pages.answer n (claim_args pending_recovery start)) (stale start)
unfolding claim_args
pages-IsPage n start = elim (Bool-cases (str_eq start "-")) [
  | inl e ↦ rw e refl
  | inr e ↦ rw e refl
]

run_recovery-Ends_example :
    Ends pending_recovery pages stale (stale "-") (run_recovery pending_recovery pages 4)
run_recovery-Ends_example =
    run_recovery-Ends pending_recovery pages stale pages-IsPage 4 (omega arith)

-- One worker finishes "job-1" while another begins "job-2".
abbrev finishing : History
finishing = (at 12, update (complete "job-1" "w1" [])) ∷ []

abbrev beginning : History
beginning =
    (at 11, update (claim "job-2" "w2" (seconds 30)))
    ∷ (at 13, update (mark_running "job-2" "w2"))
    ∷ []

abbrev between : History
between =
    (at 11, update (claim "job-2" "w2" (seconds 30)))
    ∷ (at 12, update (complete "job-1" "w1" []))
    ∷ (at 13, update (mark_running "job-2" "w2"))
    ∷ []

two_keys : Apart finishing beginning
two_keys id = elim (Bool-cases (str_eq "job-1" id)) [
  | inl e ↦ rw (← (eq_iff "job-1" id).0 e) refl
  | inr e ↦ rw e refl
]

interleavings_agree_example :
    ((s : Snapshot) → run_snapshot between s ≡ run_snapshot (finishing ++ beginning) s)
    × ((m : Moment) (id : String) (t : Table)
        → get m id (run between t) ≡ get m id (run (finishing ++ beginning) t))
interleavings_agree_example =
    interleavings_agree finishing beginning between two_keys (right _ (left _ (right _ nothing)))
