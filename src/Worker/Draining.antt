-- ===== src/Worker/Draining.antt =====
-- Theorems on Start, workerLoop and Stop of worker/pool.go: how a pool ends.
use codera.Base.{ℕ, ◌+◌, ◌*◌, ◌≤◌, true, List, [], ◌∷◌, ◌≡◌, refl, arith, length}
use codera.Queue.{QueueError, queue_closed, queue_full, redis_error, QueueMessage}
use codera.Worker.Heartbeat.{WorkerStatus, starting, active, draining}
use codera.Worker.Pool.{
  Turn, checking, consuming, backing_off, gone, processing, is_ending, at_head, after_consume,
  StopAt, closing, waiting, pausing, ended, Pool, WorkerStep, heads, takes, stops, finishes,
  retries, WorkersStep, this, other, AreGone, Step, start, work, drain, close, drained, time_out,
  give_up, Run, here, next,
}

-- How many steps a worker of a draining pool has left, and how many messages it may still take.
abbrev steps_left : Turn → ℕ
steps_left gone = 0
steps_left checking = 1
steps_left backing_off = 2
steps_left (processing m) = 2
steps_left consuming = 3

abbrev messages_left : Turn → ℕ
messages_left consuming = 1
messages_left _ = 0

abbrev total : (Turn → ℕ) → List Turn → ℕ
total f [] = 0
total f (t ∷ ts) = f t + total f ts

abbrev stop_left : StopAt → ℕ
stop_left closing = 3
stop_left waiting = 2
stop_left pausing = 1
stop_left ended = 0

WorkerStep-left :
    {p : Pool} {k : ℕ} {a b : Turn}
    → is_ending p.status ≡ true
    → WorkerStep p k a b
    → (steps_left b + 1 ≤ steps_left a) × (k + messages_left b ≤ messages_left a)
unfolding at_head after_consume
WorkerStep-left {p} e heads = rw e (omega arith, omega arith)
WorkerStep-left e (takes m) = (omega arith, omega arith)
WorkerStep-left e (stops queue_closed h h') = (omega arith, omega arith)
WorkerStep-left e (stops QueueError.canceled h h') = (omega arith, omega arith)
WorkerStep-left e (stops queue_full h h') = (omega arith, omega arith)
WorkerStep-left e (stops redis_error h h') = (omega arith, omega arith)
WorkerStep-left e (finishes m) = (omega arith, omega arith)
WorkerStep-left e retries = (omega arith, omega arith)

WorkersStep-left :
    {p : Pool} {k : ℕ} {ts us : List Turn}
    → is_ending p.status ≡ true
    → WorkersStep p k ts us
    → (total steps_left us + 1 ≤ total steps_left ts)
      × (k + total messages_left us ≤ total messages_left ts)
      × (length us ≡ length ts)
WorkersStep-left e (this s) = let (a, b) = WorkerStep-left e s in (omega arith, omega arith, refl)
WorkersStep-left e (other s) =
    let (a, b, c) = WorkersStep-left e s in (omega arith, omega arith, omega arith)

abbrev pool_left : Pool → ℕ
pool_left p = total steps_left p.turns + stop_left p.stop_at

-- In a draining pool each step leaves one fewer.
Step-left :
    {k : ℕ} {p q : Pool}
    → is_ending p.status ≡ true
    → Step k p q
    → (is_ending q.status ≡ true)
      × (pool_left q + 1 ≤ pool_left p)
      × (k + total messages_left q.turns ≤ total messages_left p.turns)
Step-left e (start p n h) = absurd (ground (arith, e, h))
Step-left e (work p s) = let (a, b, c) = WorkersStep-left e s in (e, omega arith, b)
Step-left e (drain p h) = absurd (ground (arith, e, h))
Step-left e (close p h h') = (e, rw h' (omega arith), omega arith)
Step-left e (drained p h g) = (refl, rw h (omega arith), omega arith)
Step-left e (time_out p h) = (e, rw h (omega arith), omega arith)
Step-left e (give_up p h) = (refl, rw h (omega arith), omega arith)

Run-left :
    {n k : ℕ} {p q : Pool}
    → is_ending p.status ≡ true
    → Run n k p q
    → (is_ending q.status ≡ true)
      × (n + pool_left q ≤ pool_left p)
      × (k + total messages_left q.turns ≤ total messages_left p.turns)
Run-left e here = (e, omega arith, omega arith)
Run-left e (next s r) =
    let (e', a, b) = Step-left e s in
    let (e'', a', b') = Run-left e' r in (e'', omega arith, omega arith)

total-le :
    (ts : List Turn) → (total steps_left ts ≤ 3 * length ts) × (total messages_left ts ≤ length ts)
total-le [] = (omega arith, omega arith)
total-le (checking ∷ ts) = let (a, b) = total-le ts in (omega arith, omega arith)
total-le (consuming ∷ ts) = let (a, b) = total-le ts in (omega arith, omega arith)
total-le (backing_off ∷ ts) = let (a, b) = total-le ts in (omega arith, omega arith)
total-le (gone ∷ ts) = let (a, b) = total-le ts in (omega arith, omega arith)
total-le (processing m ∷ ts) = let (a, b) = total-le ts in (omega arith, omega arith)

stop_left-le : (s : StopAt) → stop_left s ≤ 3
stop_left-le closing = omega arith
stop_left-le waiting = omega arith
stop_left-le pausing = omega arith
stop_left-le ended = omega arith

-- A pool that can make no step.
abbrev pub IsStuck : Pool → Type 0
IsStuck p = (k : ℕ) (q : Pool) → ¬ Step k p q

abbrev no_message : QueueMessage
no_message = record { id = ""; job_id = ""; job_type = "" }

-- Workers that can make no step have left their loops.
stuck-AreGone :
    (p : Pool) (m : QueueMessage) (ts : List Turn)
    → ((k : ℕ) (us : List Turn) → ¬ WorkersStep p k ts us)
    → AreGone ts
stuck-AreGone p m [] h = tt
stuck-AreGone p m (checking ∷ ts) h = absurd (h _ _ (this heads))
stuck-AreGone p m (consuming ∷ ts) h = absurd (h _ _ (this (takes m)))
stuck-AreGone p m (backing_off ∷ ts) h = absurd (h _ _ (this retries))
stuck-AreGone p m (gone ∷ ts) h = (refl, stuck-AreGone p m ts (λ k us s. h k (gone ∷ us) (other s)))
stuck-AreGone p m (processing n ∷ ts) h = absurd (h _ _ (this (finishes n)))

-- Only Stop sets STOPPED, at its end.
abbrev pub IsSettled : Pool → Type 0
IsSettled p = p.status ≡ WorkerStatus.stopped → p.stop_at ≡ ended

Step-IsSettled : {k : ℕ} {p q : Pool} → IsSettled p → Step k p q → IsSettled q
Step-IsSettled f (start p n h) = λ e. absurd (ground (arith, e))
Step-IsSettled f (work p s) = f
Step-IsSettled f (drain p h) = λ e. absurd (ground (arith, e))
Step-IsSettled f (close p h h') = λ e. absurd (ground (arith, e, h))
Step-IsSettled f (drained p h g) = λ e. refl
Step-IsSettled f (time_out p h) = λ e. absurd (ground (arith, f e, h))
Step-IsSettled f (give_up p h) = λ e. refl

Run-IsSettled : {n k : ℕ} {p q : Pool} → IsSettled p → Run n k p q → IsSettled q
Run-IsSettled f here = f
Run-IsSettled f (next s r) = Run-IsSettled (Step-IsSettled f s) r

stuck-ended :
    (p : Pool) (s : StopAt) (w : WorkerStatus)
    → p.stop_at ≡ s
    → p.status ≡ w
    → is_ending p.status ≡ true
    → IsSettled p
    → IsStuck p
    → p.stop_at ≡ ended
stuck-ended p s starting q w e f h = absurd (ground (arith, e, w))
stuck-ended p s active q w e f h = absurd (ground (arith, e, w))
stuck-ended p s WorkerStatus.stopped q w e f h = f w
stuck-ended p closing draining q w e f h = absurd (h _ _ (close p w q))
stuck-ended p waiting draining q w e f h = absurd (h _ _ (time_out p q))
stuck-ended p pausing draining q w e f h = absurd (h _ _ (give_up p q))
stuck-ended p ended draining q w e f h = q

-- A pool that Stop has set to DRAINING ends. Whatever the queue, the messages and the order of the
-- steps are, a run from there has at most three steps for each worker and three of Stop, in which
-- each worker takes at most one more message; and a run that cannot be continued has come to the
-- end of Stop, with every worker out of its loop.
pub drained_pool_ends :
    {n k : ℕ} {p q : Pool}
    → p.status ≡ draining
    → Run n k p q
    → (n ≤ 3 * length p.turns + 3)
      × (k ≤ length p.turns)
      × (IsStuck q → (q.stop_at ≡ ended) × AreGone q.turns)
drained_pool_ends {n} {k} {p} {q} e r =
    let i : is_ending p.status ≡ true = rw e refl in
    let f : IsSettled p = λ e'. absurd (ground (arith, e, e')) in
    let (i', a, b) = Run-left i r in
    let (c, d) = total-le p.turns in
    let z = stop_left-le p.stop_at in
    (
      omega arith,
      omega arith,
      λ h. (
        stuck-ended q q.stop_at q.status refl refl i' (Run-IsSettled f r) h,
        stuck-AreGone q no_message q.turns (λ k us s. h k _ (work q s)),
      ),
    )
