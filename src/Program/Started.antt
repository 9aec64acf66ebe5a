-- ===== src/Program/Started.antt =====
-- Theorems on cmd/api/main.go with config/config.go and worker/pool.go.
use codera.Base.{
  ℕ, suc, String, true, false, Option, none, some, ◌≡◌, ◌≢◌, refl, ap, sym, ◌∙◌, subst, arith,
  Bytes,
}
use codera.Config.Numbers.{ℤ, pos, negsuc, is_positive}
use codera.Config.Checks.{Loaded, loaded, failed, Config}
use codera.Config.Load.{load}
use codera.Config.Usable.{IsUsable, IsFilled, load-IsUsable}
use codera.Database.{connect_database, run_migrations, connect_redis}
use codera.Sandbox.Docker.{Runtime, new_runtime}
use codera.Worker.Pool as Pool
use codera.Worker.Pool.{Pool, new_pool, replicate, checking, Step}
use codera.Program.{
  Outside, Running, running, count, start_pool, is_worker, is_api, start_services, connect,
  with_config, with_runtime, start, ensure_group_exists,
}

-- A positive number of workers is not none.
count-suc : (z : ℤ) → is_positive z ≡ true → (n : ℕ) × (count z ≡ suc n)
count-suc (pos (suc n)) h = (n, refl)
count-suc (pos ℕ.zero) h = absurd (ground (arith, h))
count-suc (negsuc n) h = absurd (ground (arith, h))

-- A pool that Start has made of a new one, with workers.
abbrev pub HasWorkers : Option Pool → Type 0
HasWorkers o =
    (p : Pool) × (n : ℕ) × (o ≡ some p) × Step 0 new_pool p × (p.turns ≡ replicate (suc n) checking)

-- The pool of connections, the migrations, Redis and the consumer group.
abbrev pub IsUp : Outside → Config → Type 0
IsUp o c =
    ((connect_database o.postgres c).1 ≡ true)
    × ((run_migrations o.migrations c.database_url).1 ≡ true)
    × ((connect_redis o.redis c).1 ≡ true)
    × (ensure_group_exists o.group ≡ true)

-- The sandbox, the pool of connections, the migrations, Redis and the consumer group.
abbrev pub IsConnected : Outside → Config → Type 0
IsConnected o c = (new_runtime c o.seccomp_file ≢ none) × IsUp o c

abbrev pub IsReady : Outside → Running → Type 0
IsReady o r =
    IsConnected o r.config
    × (IsUsable r.config × IsFilled r.config)
    × (is_worker r.config.role ≡ true → HasWorkers r.worker_pool)
    × (is_worker r.config.role ≡ false → r.worker_pool ≡ none)
    × (r.server ≡ is_api r.config.role)

services-HasWorkers :
    (c : Config) → IsUsable c → is_worker c.role ≡ true → HasWorkers (start_services c).worker_pool
unfolding start_services start_pool
services-HasWorkers c u h =
    let (n, e) = count-suc c.execution_workers u.execution_workers in
    (
      start_pool c,
      n,
      rw h refl,
      Pool.start new_pool (count c.execution_workers) refl,
      ap (λ k. replicate k checking) e,
    )

connect-IsUp :
    (o : Outside) (c : Config) (r : Running)
    → (connect o c).1 ≡ running r
    → IsUp o c × (start_services c ≡ r)
unfolding connect
connect-IsUp o c r h = ground (arith, h)

connect-IsReady :
    (o : Outside) (c : Config) (r : Running)
    → IsUsable c × IsFilled c
    → new_runtime c o.seccomp_file ≢ none
    → (connect o c).1 ≡ running r
    → IsReady o r
unfolding start_services
connect-IsReady o c r u made h =
    let (up, e) = connect-IsUp o c r h in
    subst (IsReady o) e ((made, up), u, services-HasWorkers c u.0, λ k. rw k refl, refl)

with_runtime-IsReady :
    (o : Outside) (c : Config) (r : Running) (sandbox : Option Runtime)
    → new_runtime c o.seccomp_file ≡ sandbox
    → IsUsable c × IsFilled c
    → (with_runtime o c sandbox).1 ≡ running r
    → IsReady o r
with_runtime-IsReady o c r none e u h = absurd (ground (arith, h))
with_runtime-IsReady o c r (some sandbox) e u h = connect-IsReady o c r u (λ k. cc) h

with_config-IsReady :
    (o : Outside) (l : Loaded Config) (r : Running)
    → ((c : Config) → l ≡ loaded c → IsUsable c × IsFilled c)
    → (with_config o l).1 ≡ running r
    → IsReady o r
unfolding with_config
with_config-IsReady o (failed e) r k h = absurd (ground (arith, h))
with_config-IsReady o (loaded c) r k h =
    with_runtime-IsReady o c r (new_runtime c o.seccomp_file) refl (k c refl) h

module _ (getenv : String → String) (parse_duration_text : Bytes → Option ℤ) (uuid : String) where
  pub start-IsReady :
      (o : Outside) (r : Running)
      → o.config ≡ load getenv parse_duration_text uuid
      → (start o).1 ≡ running r
      → IsReady o r
  unfolding start
  start-IsReady o r e h =
      with_config-IsReady o o.config r
        (λ c q. load-IsUsable getenv parse_duration_text uuid c (sym e ∙ q)) h
