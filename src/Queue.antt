-- ===== src/Queue.antt =====
-- backend/internal/queue: queue.go and redis_queue.go. Redis is not modelled: what its client
-- answers is an argument, and the calls made are values.
pub mod Closing
pub mod Reading
pub mod Redis
use codera.Base.{String, Bool, true, false, Option, none, some, List, [], ◌∷◌, if◌then◌else◌}

pub data QueueError : Type 0 where
  queue_full queue_closed canceled redis_error : QueueError

pub record QueueMessage : Type 0 where
  pub id : String
  pub job_id : String
  pub job_type : String

-- A message of the stream, with the values that are there and are texts.
pub record Entry : Type 0 where
  pub id : String
  pub job_id : Option String
  pub job_type : Option String

pub data QueueCall : Type 0 where
  xadd : String → String → QueueCall
  xack : String → QueueCall
  publish : String → QueueCall

-- What becomes of an XADD: it is carried out and answered, it is not, or it is carried out and its
-- answer is lost, which the client takes for an error.
pub data AddReply : Type 0 where
  appended not_added answer_lost : AddReply

-- Whether Enqueue returns no error, and whether its message is in the stream.
abbrev pub succeeds : AddReply → Bool
succeeds appended = true
succeeds _ = false

abbrev pub reaches : AddReply → Bool
reaches not_added = false
reaches _ = true

-- The calls that Redis carried out are listed; `closed` is the flag of the queue.
unfoldable pub enqueue : Bool → AddReply → String → String → List QueueCall × Option QueueError
enqueue closed reply job_id job_type = if closed then ([], some queue_closed) else elim reply [
  | appended ↦ (xadd job_id job_type ∷ [], none)
  | not_added ↦ ([], some redis_error)
  | answer_lost ↦ (xadd job_id job_type ∷ [], some redis_error)
]

-- `up` says whether the client's call succeeds.
unfoldable pub ack : Bool → String → List QueueCall × Option QueueError
ack up id = if up then (xack id ∷ [], none) else ([], some redis_error)

unfoldable pub publish_job_update : Bool → String → List QueueCall × Option QueueError
publish_job_update up job_id = if up then (publish job_id ∷ [], none) else ([], some redis_error)

-- What XREADGROUP answers: redis.Nil after two seconds, an error, no message, or one.
pub data ReadReply : Type 0 where
  timed_out read_failed nothing_read : ReadReply
  read : Entry → ReadReply

-- One round of the loop of Consume: the flag at its start, the answer, and whether the context
-- is done when an error is looked at.
pub record ReadRound : Type 0 where
  pub closed : Bool
  pub reply : ReadReply
  pub ctx_done : Bool

pub data Consumed : Type 0 where
  message : QueueMessage → Consumed
  stopped : QueueError → Consumed

-- "run" is the type of a message that has none.
unfoldable pub job_type_of : Option String → String
job_type_of none = "run"
job_type_of (some t) = t

read_entry : Entry → Option String → Option Consumed
unfolding job_type_of
read_entry e none = none
read_entry e (some job_id) =
    some (message (record { id = e.id; job_id = job_id; job_type = job_type_of e.job_type }))

-- The answer to one read; `none` is `continue`.
unfoldable pub read_once : ReadReply → Bool → Option Consumed
unfolding read_entry
read_once timed_out ctx_done = none
read_once read_failed ctx_done = some (stopped (if ctx_done then canceled else redis_error))
read_once nothing_read ctx_done = none
read_once (read e) ctx_done = read_entry e e.job_id

-- The loop over the rounds given; `none` means that it still waits after them.
unfoldable pub consume : List ReadRound → Option Consumed
consume [] = none
consume (r ∷ rounds) =
    let rest = consume rounds in
    if r.closed
    then some (stopped queue_closed)
    else elim (read_once r.reply r.ctx_done) [ none ↦ rest | some c ↦ some c ]
