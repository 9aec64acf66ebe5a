-- ===== src/Jobs/Ticks.antt =====
-- backend/internal/recovery/service.go: Start, the loop around the three sweeps. The tables are
-- shared: what others write to them before a tick, and to `executions` during one, is part of the
-- events that the loop meets.
use codera.Base.{ℕ, String, Bool, true, false, List, [], ◌∷◌, ◌++◌}
use codera.Jobs.Table.{Table, Moment}
use codera.Jobs.Recovery.{AnyOrder, Round, recover_abandoned_jobs, dispatch_delayed_jobs}
use codera.Jobs.History.{History, run}
use codera.Worker.Heartbeat.{WorkerTable, WorkerHistory, run_workers, mark_stale_workers}

-- The moments of the statements of one tick, the answers to its calls on the queue, and what
-- others write between its first two sweeps.
pub record Tick : Type 0 where
  pub recovers : Moment
  pub meanwhile : History
  pub selects : Moment
  pub any_order : AnyOrder
  pub rounds : String → Round
  pub marks : Moment

-- What the `select` of the loop chooses, and the writes of others.
pub data Signal : Type 0 where
  others : History → WorkerHistory → Signal
  tick : Tick → Signal
  done : Signal

pub record Tables : Type 0 where
  pub executions : Table
  pub workers : WorkerTable

-- The body of a tick; the messages sent are of type "run".
unfoldable pub sweep : ℕ → Tick → Tables → List String × Tables
sweep timeout k t =
    let recovered = run k.meanwhile (recover_abandoned_jobs k.recovers t.executions) in
    let (sent, dispatched) = dispatch_delayed_jobs k.any_order k.selects k.rounds recovered in
    (
      sent,
      record { executions = dispatched; workers = mark_stale_workers timeout k.marks t.workers },
    )

-- The messages sent, the tables left, and whether the loop has returned.
unfoldable pub start_recovery : ℕ → List Signal → Tables → List String × Tables × Bool
unfolding sweep
start_recovery timeout [] t = ([], t, false)
start_recovery timeout (done ∷ es) t = ([], t, true)
start_recovery timeout (others h g ∷ es) t =
    start_recovery timeout es
      (record { executions = run h t.executions; workers = run_workers timeout g t.workers })
start_recovery timeout (tick k ∷ es) t =
    let (sent, t') = sweep timeout k t in
    let (more, u, returned) = start_recovery timeout es t' in (sent ++ more, u, returned)
