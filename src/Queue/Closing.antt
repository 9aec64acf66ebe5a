-- ===== src/Queue/Closing.antt =====
-- Theorem on Close of queue/redis_queue.go.
use codera.Base.{true, some, none, List, [], ◌∷◌, ◌≡◌, refl, All}
use codera.Queue.{enqueue, ack, publish_job_update, consume, queue_closed, stopped}
use codera.Queue.Redis.{
  RedisQueue, close, redis_queue, Use, enqueues, consumes, acks, publishes, closes, Given, sent,
  consumed, nothing, use_queue, use_all,
}

-- What a closed queue gives back: it takes and hands out nothing, but it acknowledges and publishes
-- as before.
abbrev pub IsRefused : Use → Given → Type 0
IsRefused (enqueues up job_id job_type) g = g ≡ sent ([], some queue_closed)
IsRefused (consumes []) g = g ≡ consumed none
IsRefused (consumes (r ∷ rounds)) g = g ≡ consumed (some (stopped queue_closed))
IsRefused (acks up id) g = g ≡ sent (ack up id)
IsRefused (publishes up job_id) g = g ≡ sent (publish_job_update up job_id)
IsRefused closes g = g ≡ nothing

module _ (q : RedisQueue) (c : q.closed ≡ true) where
  use-IsRefused : (u : Use) → IsRefused u (use_queue redis_queue u q).1
  unfolding use_queue enqueue consume
  use-IsRefused (enqueues up job_id job_type) = rw c refl
  use-IsRefused (consumes []) = refl
  use-IsRefused (consumes (r ∷ rounds)) = rw c refl
  use-IsRefused (acks up id) = refl
  use-IsRefused (publishes up job_id) = refl
  use-IsRefused closes = refl

  use-closed : (u : Use) → (use_queue redis_queue u q).0.closed ≡ true
  unfolding use_queue close
  use-closed (enqueues up job_id job_type) = c
  use-closed (consumes rounds) = c
  use-closed (acks up id) = c
  use-closed (publishes up job_id) = c
  use-closed closes = refl

uses-IsRefused :
    (us : List Use) (q : RedisQueue)
    → q.closed ≡ true
    → All (λ x. IsRefused x.0 x.1) (use_all redis_queue us q)
unfolding use_all
uses-IsRefused [] q c = tt
uses-IsRefused (u ∷ us) q c =
    (use-IsRefused q c u, uses-IsRefused us (use_queue redis_queue u q).0 (use-closed q c u))

-- Once Close has been called, whatever is called afterwards, no message is sent, every Consume
-- returns ErrQueueClosed with its next round, and messages are acknowledged and updates published
-- as before.
closed_queue_refuses :
    (us : List Use) (q : RedisQueue)
    → All (λ x. IsRefused x.0 x.1) (use_all redis_queue us (close q))
unfolding close
closed_queue_refuses us q = uses-IsRefused us (close q) refl
