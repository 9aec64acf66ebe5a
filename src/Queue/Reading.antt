-- ===== src/Queue/Reading.antt =====
-- Theorems on Consume of queue/redis_queue.go: sequences of reads.
use codera.Base.{
  String, Bool, true, false, Option, none, some, List, [], ◌∷◌, ◌++◌, ◌≡◌, ◌⊎◌, inl, inr, refl, ap,
  arith, All, Bool-cases, Option-cases, if◌then◌else◌,
}
use codera.Queue.{
  queue_closed, canceled, redis_error, Entry, ReadReply, timed_out, read_failed, nothing_read, read,
  ReadRound, Consumed, message, stopped, job_type_of, read_once, consume,
}

-- A reply that brings nothing: a timeout, no message, or a message without a job id.
abbrev pub IsIdle : ReadReply → Type 0
IsIdle timed_out = Unit
IsIdle nothing_read = Unit
IsIdle (read e) = e.job_id ≡ none
IsIdle read_failed = ⊥

abbrev pub IsPassed : ReadRound → Type 0
IsPassed r = (r.closed ≡ false) × IsIdle r.reply

-- What a reply of an open queue decides.
abbrev pub Gives : Bool → Consumed → ReadReply → Type 0
Gives done c timed_out = ⊥
Gives done c nothing_read = ⊥
Gives done c read_failed = c ≡ stopped (if done then canceled else redis_error)
Gives done c (read e) =
    (id : String) × (e.job_id ≡ some id)
    × (c
        ≡ message (record {
          id = e.id;
          job_id = id;
          job_type = elim e.job_type [ none ↦ "run" | some t ↦ t ];
        }))

abbrev pub Decides : ReadRound → Consumed → Type 0
Decides r c =
    ((r.closed ≡ true) × (c ≡ stopped queue_closed))
    ⊎ ((r.closed ≡ false) × Gives r.ctx_done c r.reply)

-- Whether one round is passed over.
abbrev Settles : ReadRound → Option Consumed → Option Consumed → Type 0
Settles r rest out = (IsPassed r × (out ≡ rest)) ⊎ ((c : Consumed) × Decides r c × (out ≡ some c))

module _ (r : ReadRound) (rounds : List ReadRound) (e : r.closed ≡ false) where
  consume_entry : (x : Entry) → r.reply ≡ read x → Settles r (consume rounds) (consume (r ∷ rounds))
  unfolding consume read_once job_type_of
  consume_entry x q = elim (Option-cases x.job_id) [
    | inl j ↦ inl ((e, rw q j), ground (arith, e, q, j))
    | inr (id, j) ↦ inr (
      message (record { id = x.id; job_id = id; job_type = job_type_of x.job_type }),
      inr (e, rw q (id, j, refl)),
      ground (arith, e, q, j),
    )
  ]

  consume_open : (a : ReadReply) → r.reply ≡ a → Settles r (consume rounds) (consume (r ∷ rounds))
  unfolding consume read_once
  consume_open timed_out q = inl ((e, rw q tt), ground (arith, e, q))
  consume_open nothing_read q = inl ((e, rw q tt), ground (arith, e, q))
  consume_open read_failed q = inr (
    stopped (if r.ctx_done then canceled else redis_error),
    inr (e, rw q refl),
    ground (arith, e, q),
  )
  consume_open (read x) q = consume_entry x q

consume_round :
    (r : ReadRound) (rounds : List ReadRound) → Settles r (consume rounds) (consume (r ∷ rounds))
unfolding consume
consume_round r rounds = elim (Bool-cases r.closed) [
  | inl e ↦ inr (stopped queue_closed, inl (e, refl), ground (arith, e))
  | inr e ↦ consume_open r rounds e r.reply refl
]

-- Consume over any rounds either waits through all of them, or is decided by the first that is
-- not passed over: by the closed queue, by an error, or by a message with its job id, whose type
-- is "run" if it has none.
pub consume_lem :
    (rounds : List ReadRound)
    → (All IsPassed rounds × (consume rounds ≡ none))
      ⊎ ((before : List ReadRound) × (r : ReadRound) × (after : List ReadRound) × (c : Consumed)
          × (rounds ≡ before ++ r ∷ after)
          × All IsPassed before
          × Decides r c
          × (consume rounds ≡ some c))
consume_lem [] = inl (tt, unfold consume in refl)
consume_lem (r ∷ rounds) = elim (consume_round r rounds) [
  | inr (c, d, e) ↦ inr ([], r, rounds, c, refl, tt, d, e)
  | inl (p, e) ↦ elim (consume_lem rounds) [
    | inl (ps, q) ↦ inl ((p, ps), rw e q)
    | inr (before, x, after, c, q, ps, d, f) ↦
        inr (r ∷ before, x, after, c, ap (λ l. r ∷ l) q, (p, ps), d, rw e f)
  ]
]
