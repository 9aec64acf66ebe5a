-- ===== src/Server/Health.antt =====
-- backend/internal/server/server.go: the health checks, the version, and the guard of the route
-- /api/v1/executions. A connection that is nil is none, else whether its Ping succeeds.
use codera.Base.{ℕ, String, Bool, true, Option, none, some, List, [], if◌then◌else◌}
use codera.Queue.{QueueCall}
use codera.Jobs.Table.{Table}
use codera.Server.Executions.{Response, fails_with}

pub record Health : Type 0 where
  pub status_code : ℕ
  pub status : String

abbrev pub unavailable : String → Health
unavailable s = record { status_code = 503; status = s }

unfoldable pub handle_health_live : Health
handle_health_live = record { status_code = 200; status = "ok" }

abbrev pub responds : Option Bool → Bool
responds none = true
responds (some b) = b

unfoldable pub handle_health_ready : Bool → Option Bool → Option Bool → Health
unfolding handle_health_live
handle_health_ready shutting_down db redis =
    if shutting_down
    then unavailable "shutting_down"
    else if responds db
    then if responds redis
      then record { status_code = 200; status = "ok" }
      else unavailable "redis_unavailable"
    else unavailable "postgres_unavailable"

-- The route of HandleExecute: `handle` is what it makes of the table.
unfoldable pub guarded :
    Bool → (Table → Table × List QueueCall × Response) → Table → Table × List QueueCall × Response
guarded shutting_down handle t = if shutting_down then (t, [], fails_with 503) else handle t
