-- ===== src/Worker/Pool.antt =====
-- backend/internal/worker/pool.go: Start, workerLoop and Stop, as steps of a pool of workers.
use codera.Base.{ℕ, zero, suc, ◌+◌, Bool, true, false, List, [], ◌∷◌, ◌≡◌, if◌then◌else◌}
use codera.Queue.{QueueError, queue_closed, canceled, QueueMessage, Consumed, message, stopped}
use codera.Worker.Heartbeat.{WorkerStatus, starting, active, draining}

-- Where a worker's loop stands: before the test of the status, in Consume, with a message, in the
-- pause after an error, or at its end.
pub data Turn : Type 0 where
  checking consuming backing_off gone : Turn
  processing : QueueMessage → Turn

-- p.status == StatusDraining || p.status == StatusStopped
abbrev pub is_ending : WorkerStatus → Bool
is_ending draining = true
is_ending WorkerStatus.stopped = true
is_ending _ = false

unfoldable pub at_head : WorkerStatus → Turn
at_head status = if is_ending status then gone else consuming

-- What the loop does with the answer of Consume.
unfoldable pub after_consume : Consumed → Turn
after_consume (message m) = processing m
after_consume (stopped queue_closed) = gone
after_consume (stopped canceled) = gone
after_consume (stopped _) = backing_off

-- Where Stop stands: before it closes the queue, in its wait for the workers, in its pause after
-- it has cancelled their contexts, or at its end.
pub data StopAt : Type 0 where
  closing waiting pausing ended : StopAt

-- `closed` is the flag of the queue, `canceled` whether the context of the pool is done.
pub record Pool : Type 0 where
  pub status : WorkerStatus
  pub closed : Bool
  pub canceled : Bool
  pub turns : List Turn
  pub stop_at : StopAt

-- NewPool
abbrev pub new_pool : Pool
new_pool = record {
  status = starting;
  closed = false;
  canceled = false;
  turns = [];
  stop_at = closing;
}

abbrev pub replicate : ℕ → Turn → List Turn
replicate zero t = []
replicate (suc n) t = t ∷ replicate n t

-- A step of one worker; the number says how many messages it takes. Consume answers that the queue
-- is closed, or the context done, only if it is.
pub data WorkerStep (p : Pool) : ℕ → Turn → Turn → Type 0 where
  heads : WorkerStep p 0 checking (at_head p.status)
  takes : (m : QueueMessage) → WorkerStep p 1 consuming (after_consume (message m))
  stops :
      (e : QueueError)
      → (e ≡ queue_closed → p.closed ≡ true)
      → (e ≡ QueueError.canceled → p.canceled ≡ true)
      → WorkerStep p 0 consuming (after_consume (stopped e))
  finishes : (m : QueueMessage) → WorkerStep p 0 (processing m) checking
  retries : WorkerStep p 0 backing_off checking

-- One of the workers makes a step.
pub data WorkersStep (p : Pool) : ℕ → List Turn → List Turn → Type 0 where
  this :
      {k : ℕ} {a b : Turn} {ts : List Turn} → WorkerStep p k a b → WorkersStep p k (a ∷ ts) (b ∷ ts)
  other :
      {k : ℕ} {a : Turn} {ts us : List Turn}
      → WorkersStep p k ts us
      → WorkersStep p k (a ∷ ts) (a ∷ us)

abbrev pub AreGone : List Turn → Type 0
AreGone [] = Unit
AreGone (t ∷ ts) = (t ≡ gone) × AreGone ts

-- A step of the pool: of Start, of a worker, or of Stop, which main calls once, after Start.
pub data Step : ℕ → Pool → Pool → Type 0 where
  start :
      (p : Pool) (num_workers : ℕ)
      → p.status ≡ starting
      → Step 0 p (record p { status = active; turns = replicate num_workers checking })
  work :
      (p : Pool) {k : ℕ} {ts : List Turn}
      → WorkersStep p k p.turns ts
      → Step k p (record p { turns = ts })
  drain :
      (p : Pool) → p.status ≡ active → Step 0 p (record p { status = draining; stop_at = closing })
  close :
      (p : Pool)
      → p.status ≡ draining
      → p.stop_at ≡ closing
      → Step 0 p (record p { closed = true; stop_at = waiting })
  drained :
      (p : Pool)
      → p.stop_at ≡ waiting
      → AreGone p.turns
      → Step 0 p (record p { status = WorkerStatus.stopped; stop_at = ended })
  time_out :
      (p : Pool) → p.stop_at ≡ waiting → Step 0 p (record p { canceled = true; stop_at = pausing })
  give_up :
      (p : Pool)
      → p.stop_at ≡ pausing
      → Step 0 p (record p { status = WorkerStatus.stopped; stop_at = ended })

-- A run of the pool: its number of steps, and of messages taken.
pub data Run : ℕ → ℕ → Pool → Pool → Type 0 where
  here : {p : Pool} → Run 0 0 p p
  next : {n k l : ℕ} {p q r : Pool} → Step k p q → Run n l q r → Run (suc n) (k + l) p r
