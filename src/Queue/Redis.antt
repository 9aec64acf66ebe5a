-- ===== src/Queue/Redis.antt =====
-- backend/internal/queue: the interface JobQueue of queue.go, and the RedisQueue of redis_queue.go
-- with the flag that Close sets.
use codera.Base.{String, Bool, true, false, ◌||◌, Option, List, [], ◌∷◌, map}
use codera.Config.Numbers.{ℤ}
use codera.Queue as Queue
use codera.Queue.{AddReply, QueueCall, QueueError, ReadRound, Consumed}

-- The queue behind the interface. Whether the client's calls succeed and what it reads goes with
-- each call.
pub record JobQueue : Type 1 where
  pub State : Type 0
  pub enqueue : AddReply → String → String → State → List QueueCall × Option QueueError
  pub consume : List ReadRound → State → Option Consumed
  pub ack : Bool → String → State → List QueueCall × Option QueueError
  pub publish_job_update : Bool → String → State → List QueueCall × Option QueueError
  pub close : State → State

pub record RedisQueue : Type 0 where
  pub stream : String
  pub group : String
  pub max_len : ℤ
  pub closed : Bool

unfoldable pub new_redis_queue : String → String → ℤ → RedisQueue
new_redis_queue stream group max_len = record {
  stream = stream;
  group = group;
  max_len = max_len;
  closed = false;
}

unfoldable pub close : RedisQueue → RedisQueue
close q = record q { closed = true }

-- A round reads the flag as the queue has it, or as a call of Close in the meantime sets it.
abbrev pub seen : RedisQueue → ReadRound → ReadRound
seen q r = record r { closed = q.closed || r.closed }

abbrev pub redis_queue : JobQueue
redis_queue = record {
  State = RedisQueue;
  enqueue = λ reply job_id job_type q. Queue.enqueue q.closed reply job_id job_type;
  consume = λ rounds q. Queue.consume (map (seen q) rounds);
  ack = λ up id q. Queue.ack up id;
  publish_job_update = λ up job_id q. Queue.publish_job_update up job_id;
  close = close;
}

-- A call on the queue, and what it gives back.
pub data Use : Type 0 where
  enqueues : AddReply → String → String → Use
  consumes : List ReadRound → Use
  acks : Bool → String → Use
  publishes : Bool → String → Use
  closes : Use

pub data Given : Type 0 where
  sent : List QueueCall × Option QueueError → Given
  consumed : Option Consumed → Given
  nothing : Given

module _ (k : JobQueue) where
  unfoldable pub use_queue : Use → k.State → k.State × Given
  use_queue (enqueues reply job_id job_type) q = (q, sent (k.enqueue reply job_id job_type q))
  use_queue (consumes rounds) q = (q, consumed (k.consume rounds q))
  use_queue (acks up id) q = (q, sent (k.ack up id q))
  use_queue (publishes up job_id) q = (q, sent (k.publish_job_update up job_id q))
  use_queue closes q = (k.close q, nothing)

  -- The calls with what they give back.
  unfoldable pub use_all : List Use → k.State → List (Use × Given)
  unfolding use_queue
  use_all [] q = []
  use_all (u ∷ us) q = (u, (use_queue u q).1) ∷ use_all us (use_queue u q).0
