-- ===== src/Jobs/Pages.antt =====
-- backend/internal/jobs/pending_recovery.go: runRecovery, which reads the messages page by page, and
-- Start, the loop around it.
use codera.Base.{
  ℕ, zero, suc, ◌+◌, is_empty, String, Bool, true, false, ◌||◌, List, [], ◌∷◌, ◌++◌, str_eq,
  if◌then◌else◌,
}
use codera.Queue.{QueueCall, Entry}
use codera.Jobs.Pending.{Meeting, recover_batch}

pub record PendingRecovery : Type 0 where
  pub stream : String
  pub group : String
  pub idle_timeout : ℕ
  pub claim_batch_size : ℕ
  pub recovery_interval : ℕ

-- 15 seconds between two sweeps.
unfoldable pub new_pending_recovery : String → String → ℕ → ℕ → PendingRecovery
new_pending_recovery stream group idle batch_size = record {
  stream = stream;
  group = group;
  idle_timeout = idle;
  claim_batch_size = batch_size;
  recovery_interval = 15000000;
}

pub record ClaimArgs : Type 0 where
  pub stream : String
  pub group : String
  pub consumer : String
  pub min_idle : ℕ
  pub start : String
  pub count : ℕ

unfoldable pub claim_args : PendingRecovery → String → ClaimArgs
claim_args pr start = record {
  stream = pr.stream;
  group = pr.group;
  consumer = "system-recovery";
  min_idle = pr.idle_timeout;
  start = start;
  count = pr.claim_batch_size;
}

-- What XAUTOCLAIM answers: an error, or messages and the cursor to go on at.
pub data Claimed : Type 0 where
  claim_failed : Claimed
  batch : List Entry → String → Claimed

-- What one sweep meets: the answer to its n-th XAUTOCLAIM, and what it meets at a message.
pub record Sweep : Type 0 where
  pub answer : ℕ → ClaimArgs → Claimed
  pub meet : Entry → Meeting

-- What the loop does with an answer; `rest` is the loop from another cursor.
unfoldable pub after_claimed :
    (Entry → Meeting) → (String → List QueueCall × Bool) → Claimed → List QueueCall × Bool
after_claimed meet rest claim_failed = ([], true)
after_claimed meet rest (batch es next) =
    let calls = recover_batch meet es in
    if str_eq next "0-0" || is_empty es
    then (calls, true)
    else (let (more, ended) = rest next in (calls ++ more, ended))

module _ (pr : PendingRecovery) (s : Sweep) where
  -- The loop of runRecovery from its n-th round: the calls made on Redis besides XAUTOCLAIM, and
  -- whether the loop has ended within the fuel.
  unfoldable pub claim_pages : ℕ → ℕ → String → List QueueCall × Bool
  unfolding after_claimed
  claim_pages zero n start = ([], false)
  claim_pages (suc fuel) n start =
      after_claimed s.meet (claim_pages fuel (n + 1)) (s.answer n (claim_args pr start))

  unfoldable pub run_recovery : ℕ → List QueueCall × Bool
  unfolding claim_pages
  run_recovery fuel = claim_pages fuel 0 "-"

-- What the `select` of Start chooses.
pub data PendingSignal : Type 0 where
  ticked : Sweep → PendingSignal
  canceled : PendingSignal

-- The calls on Redis, and whether the loop has returned.
unfoldable pub start_pending : PendingRecovery → ℕ → List PendingSignal → List QueueCall × Bool
unfolding run_recovery
start_pending pr fuel [] = ([], false)
start_pending pr fuel (canceled ∷ es) = ([], true)
start_pending pr fuel (ticked s ∷ es) =
    let (more, returned) = start_pending pr fuel es in
    ((run_recovery pr s fuel).0 ++ more, returned)
