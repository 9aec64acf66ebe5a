-- ===== src/Tests/Requests.antt =====
-- The theorems on the queue and on the languages, at concrete rounds and requests.
use codera.Base.{false, none, some, List, [], ◌∷◌, ◌++◌, ◌≡◌, ◌⊎◌, codes, All}
use codera.Domain.{ExecutionRequest}
use codera.Queue.{ReadReply, timed_out, read, ReadRound, Consumed, consume}
use codera.Queue.Reading.{IsPassed, Decides, consume_lem}
use codera.Language.Registry.{get, main_registry}
use codera.Language.Supported.{is_accepted, holds_marker, accepted_lem}

abbrev round : ReadReply → ReadRound
round reply = record { closed = false; reply = reply; ctx_done = false }

-- A timeout, a message without a job, and a message.
abbrev rounds : List ReadRound
rounds =
    round timed_out
    ∷ round (read (record { id = "1-0"; job_id = none; job_type = none }))
    ∷ round (read (record { id = "2-0"; job_id = some "job-1"; job_type = none }))
    ∷ []

consume_lem_example :
    (All IsPassed rounds × (consume rounds ≡ none))
    ⊎ ((before : List ReadRound) × (r : ReadRound) × (after : List ReadRound) × (c : Consumed)
        × (rounds ≡ before ++ r ∷ after)
        × All IsPassed before
        × Decides r c
        × (consume rounds ≡ some c))
consume_lem_example = consume_lem rounds

abbrev go_request : ExecutionRequest
go_request = record { language = "go"; source_code = codes "package main"; input = [] }

accepted_lem_example :
    is_accepted (get "go" main_registry) go_request
    ≡ holds_marker (codes "package main") (some (codes "package main"))
accepted_lem_example = accepted_lem go_request
