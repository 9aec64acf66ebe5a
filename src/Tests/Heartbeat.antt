-- ===== src/Tests/Heartbeat.antt =====
-- The theorems on the table of workers, at concrete heartbeats and sweeps.
use codera.Base.{[], ◌∷◌, arith}
use codera.Jobs.Table.{lost}
use codera.Worker.Heartbeat.{active, draining, stopped, swept}
use codera.Worker.Lifetime.{others, ticked, done, Life, live, IsListed, live-IsListed}
use codera.Tests.Data.{seconds, at}

-- A heartbeat every ten seconds, one of them with its answer lost, and sweeps of 30 seconds. A
-- sweep comes after the instance has stopped, which Run does not end.
abbrev life : Life (seconds 30) "w1"
life = record {
  starts = at 0;
  serving =
      ticked (at 10)
      ∷ others ((at 20, swept) ∷ [])
      ∷ ticked (record { now = seconds 30; reply = lost })
      ∷ others ((at 60, swept) ∷ [])
      ∷ [];
  drains = at 61;
  leaving = others ((at 70, swept) ∷ []) ∷ ticked (at 71) ∷ [];
  stops = at 72;
  afterwards = ticked (at 81) ∷ others ((at 200, swept) ∷ []) ∷ done ∷ [];
}

live-IsListed_example :
    IsListed (seconds 30) "w1" active (live (seconds 30) "w1" life []).0
    × IsListed (seconds 30) "w1" draining (live (seconds 30) "w1" life []).1
    × IsListed (seconds 30) "w1" stopped (live (seconds 30) "w1" life []).2
live-IsListed_example =
    live-IsListed (seconds 30) "w1" life [] (λ e. cc) (omega arith, (omega arith, tt)) (λ e. cc)
      (omega arith, tt) (λ e. cc) (tt, (tt, tt))
