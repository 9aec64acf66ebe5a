-- ===== src/Program/Closed.antt =====
-- Theorems on cmd/api/main.go with db/postgres.go and db/redis.go: what is left open at the end.
use codera.Base.{Bool, true, false, List, [], ◌∷◌, ◌++◌, ◌≡◌, ◌≢◌, ◌↔◌, if◌then◌else◌}
use codera.Config.Checks.{Config}
use codera.Database.{Handle, pool, migrator, client, ai_client, HandleCall, opens, closes}
use codera.Program.{
  Program, running, Running, Ending, signalled, server_ended, panicked, Ended, shut_down, deferred,
}

abbrev same : Handle → Handle → Bool
same pool pool = true
same migrator migrator = true
same client client = true
same ai_client ai_client = true
same _ _ = false

-- Whether the last call about the handle has opened it.
abbrev pub is_open : Bool → Handle → List HandleCall → Bool
is_open now h [] = now
is_open now h (opens k ∷ cs) = is_open (if same k h then true else now) h cs
is_open now h (closes k ∷ cs) = is_open (if same k h then false else now) h cs

-- What the start opens: nothing, or the pool, or the pool and the client of Redis.
abbrev pub Opened : List HandleCall → Type 0
Opened cs =
    (is_open false migrator cs ≡ false)
    × (is_open false pool (cs ++ deferred) ≡ false)
    × (is_open false client (cs ++ deferred) ≡ false)
    × (is_open false migrator (cs ++ deferred) ≡ false)

-- The ending is neither an error of the server nor a panic.
abbrev pub IsOrderly : Ending → Type 0
IsOrderly e = (e ≢ server_ended true) × (e ≢ panicked)

-- How main ends, by the calls of its start: with which code, what is left open, and what has been stopped.
pub record IsLeft (cs : List HandleCall) (p : Program) (e : Ending) (x : Ended) : Type 0 where
  pub migrator : is_open false migrator x.calls ≡ false
  pub closed : x.code ≡ 0 → (h : Handle) → h ≢ ai_client → is_open false h x.calls ≡ false
  pub unclosed : is_open false ai_client x.calls ≡ is_open false ai_client cs
  pub succeeds : (x.code ≡ 0) ↔ (((r : Running) × (p ≡ running r)) × IsOrderly e)
  pub stops : (r : Running) → p ≡ running r → e ≡ signalled → x.stopped ≡ shut_down r
  pub unstopped : e ≢ signalled → x.stopped ≡ []
