-- ===== src/Jobs/Memory.antt =====
-- backend/internal/jobs/memory_store.go: the store that the tests use, a map under a lock. Each
-- method holds the lock throughout, so it is one step.
use codera.Base.{ℕ, String, Option, none, some, List, [], ◌∷◌, ◌++◌, if◌then◌else◌, str_eq}
use codera.Domain.{ExecutionResult}
use codera.Jobs.Job.{ExecutionJob, completed, running, is_queued, is_running, clone}
use codera.Jobs.Store.{StoreError, job_not_found, invalid_state, Fetched, row, failed}

-- The map, as an association list.
abbrev pub MemoryJobStore : Type 0
MemoryJobStore = List (String × ExecutionJob)

unfoldable pub lookup : String → MemoryJobStore → Option ExecutionJob
lookup id [] = none
lookup id ((k, j) ∷ s) = if str_eq k id then some j else lookup id s

-- `s.jobs[id] = job`
unfoldable pub put : String → ExecutionJob → MemoryJobStore → MemoryJobStore
put id j [] = (id, j) ∷ []
put id j ((k, i) ∷ s) = if str_eq k id then (k, j) ∷ s else (k, i) ∷ put id j s

unfoldable pub create : ExecutionJob → MemoryJobStore → MemoryJobStore × Option StoreError
create j s = if is_queued j.status then (put j.id (clone j) s, none) else (s, some invalid_state)

fetched : Option ExecutionJob → Fetched
fetched none = failed job_not_found
fetched (some j) = row (clone j)

unfoldable pub get : String → MemoryJobStore → Fetched
unfolding fetched
get id s = fetched (lookup id s)

-- A job found is changed in place, under the key by which it was found.
mark_found : ℕ → String → MemoryJobStore → Option ExecutionJob → MemoryJobStore × Option StoreError
mark_found now id s none = (s, some job_not_found)
mark_found now id s (some j) =
    if is_queued j.status
    then (put id (record j { status = running; started_at = some now }) s, none)
    else (s, some invalid_state)

unfoldable pub mark_running : ℕ → String → MemoryJobStore → MemoryJobStore × Option StoreError
unfolding mark_found
mark_running now id s = mark_found now id s (lookup id s)

complete_found :
    ℕ
    → String
    → List ExecutionResult
    → MemoryJobStore
    → Option ExecutionJob
    → MemoryJobStore × Option StoreError
complete_found now id results s none = (s, some job_not_found)
complete_found now id results s (some j) =
    if is_running j.status
    then (
      put id (record j { status = completed; completed_at = some now; results = [] ++ results }) s,
      none,
    )
    else (s, some invalid_state)

-- The worker's name is an argument that the body does not read.
unfoldable pub complete :
    ℕ → String → String → List ExecutionResult → MemoryJobStore → MemoryJobStore × Option StoreError
unfolding complete_found
complete now id worker results s = complete_found now id results s (lookup id s)
