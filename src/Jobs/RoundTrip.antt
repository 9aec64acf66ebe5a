-- ===== src/Jobs/RoundTrip.antt =====
-- Theorems on jobs/memory_store.go: lookups after writes.
use codera.Base.{ℕ, String, true, some, List, [], ◌∷◌, ◌≡◌, ◌≢◌, refl, arith, eq_iff, eq_refl}
use codera.Domain.{ExecutionResult}
use codera.Jobs.Job.{ExecutionJob, running, completed, is_queued, clone}
use codera.Jobs.Store.{row}
use codera.Jobs.Memory.{MemoryJobStore, lookup, put, create, get, mark_running, complete}

lookup-put : (id : String) (j : ExecutionJob) (s : MemoryJobStore) → lookup id (put id j s) ≡ some j
unfolding lookup put
lookup-put id j [] = ground (arith, eq_refl id)
lookup-put id j ((k, i) ∷ s) = ground (arith, eq_refl id, lookup-put id j s)

lookup-put_other :
    (id other : String) (j : ExecutionJob) (s : MemoryJobStore)
    → other ≢ id
    → lookup id (put other j s) ≡ lookup id s
unfolding lookup put
lookup-put_other id other j [] h = ground (arith, eq_iff other id)
lookup-put_other id other j ((k, i) ∷ s) h =
    ground (arith, eq_iff other id, eq_iff k id, eq_iff k other, lookup-put_other id other j s h)

clone_lem : (j : ExecutionJob) → clone j ≡ j
unfolding clone
clone_lem j = ground arith

-- A queued job that is created in the store in memory, marked as running and completed, by
-- whatever worker, is given back as it was, with the two times, the status and the results; and
-- every other job is given back as before.
memory_round_trip :
    (j : ExecutionJob) (start finish : ℕ) (worker : String) (results : List ExecutionResult)
    (s : MemoryJobStore)
    → is_queued j.status ≡ true
    → let t = (complete finish j.id worker results (mark_running start j.id (create j s).0).0).0 in
      (get j.id t
        ≡ row (record j {
          status = completed;
          started_at = some start;
          completed_at = some finish;
          results = results;
        }))
      × ((other : String) → j.id ≢ other → get other t ≡ get other s)
unfolding create mark_running complete get
memory_round_trip j start finish worker results s q =
    rw
      (
        q,
        clone_lem j,
        lookup-put j.id j s,
        q,
        lookup-put j.id (record j { status = running; started_at = some start }) (put j.id j s),
        lookup-put,
        clone_lem,
      )
      (
        refl,
        λ other n. rw (
          lookup-put_other other j.id _ _ n,
          lookup-put_other other j.id _ _ n,
          lookup-put_other other j.id _ _ n,
        ),
      )
