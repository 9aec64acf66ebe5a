-- ===== src/Config/Usable.antt =====
-- Theorems on Load of config/config.go: what a configuration that it returns satisfies.
use codera.Base.{
  ℕ, zero, suc, ◌^◌, ◌<◌, String, Bool, true, false, Option, List, [], ◌∷◌, All, ◌≡◌, refl, subst,
  arith, Bytes, codes, str_eq, Bool-cases, Option-cases, inl, inr,
}
use codera.Config.Numbers.{ℤ, pos, negsuc, is_positive, is_zero, parse_int64}
use codera.Config.Range.{IsWithin, to_int32-IsWithin, parse_int64-IsWithin}
use codera.Config.Checks.{
  ConfigError, Loaded, loaded, failed, ◌>>=◌, ◌>>◌, Config, is_env, tests, first_error, validate,
}
use codera.Config.Load.{
  or_default, or_zero, unless_zero, Checked, parse_int, read_checked, assemble, finish, load,
}

passes-All : (l : List (Bool × ConfigError)) → first_error l ≡ loaded tt → All (λ t. t.0 ≡ true) l
passes-All [] h = tt
passes-All ((true, e) ∷ l) h = (refl, passes-All l h)
passes-All ((false, e) ∷ l) h = absurd (ground (arith, h))

-- The fields that validate looks at.
pub record IsUsable (c : Config) : Type 0 where
  pub env : is_env c.env ≡ true
  pub compile_timeout : is_positive c.compile_timeout ≡ true
  pub run_timeout : is_positive c.run_timeout ≡ true
  pub max_stdout_bytes : is_positive c.max_stdout_bytes ≡ true
  pub max_stderr_bytes : is_positive c.max_stderr_bytes ≡ true
  pub execution_pids_limit : is_positive c.execution_pids_limit ≡ true
  pub execution_workers : is_positive c.execution_workers ≡ true
  pub queue_capacity : is_positive c.queue_capacity ≡ true
  pub db_max_conns : is_positive c.db_max_conns ≡ true
  pub reconciliation_batch_size : is_positive c.reconciliation_batch_size ≡ true

validate-IsUsable : (c : Config) → validate c ≡ loaded tt → IsUsable c
unfolding validate
validate-IsUsable c h =
    let (a1, (a2, (a3, (a4, (a5, (a6, (a7, (a8, (a9, (a10, (a11, (a12, _)))))))))))) =
      passes-All (tests c) h in
    record {
      env = a1;
      compile_timeout = a2;
      run_timeout = a3;
      max_stdout_bytes = a4;
      max_stderr_bytes = a5;
      execution_pids_limit = a8;
      execution_workers = a9;
      queue_capacity = a10;
      db_max_conns = a11;
      reconciliation_batch_size = a12;
    }

-- A value of a duration or a number that is used without a test of its own.
abbrev pub IsNonzero : ℤ → Type 0
IsNonzero z = is_zero z ≡ false

unless_zero-IsNonzero : (n : ℕ) (z : ℤ) → IsNonzero (unless_zero (pos (suc n)) z)
unless_zero-IsNonzero n (pos zero) = refl
unless_zero-IsNonzero n (pos (suc k)) = refl
unless_zero-IsNonzero n (negsuc k) = refl

or_default-nonempty :
    (fallback s : String) → str_eq fallback "" ≡ false → str_eq (or_default fallback s) "" ≡ false
or_default-nonempty fallback s h = elim (Bool-cases (str_eq s "")) [
  | inl e ↦ rw e h
  | inr e ↦ rw (e, e) refl
]

-- The fields that Load leaves to their defaults or checks nowhere.
pub record IsFilled (c : Config) : Type 0 where
  pub heartbeat : IsNonzero c.worker_heartbeat_interval
  pub heartbeat_timeout : IsNonzero c.worker_heartbeat_timeout
  pub lease : IsNonzero c.job_lease_duration
  pub renew : IsNonzero c.job_lease_renew_interval
  pub recovery : IsNonzero c.recovery_interval
  pub base_delay : IsNonzero c.retry_base_delay
  pub max_delay : IsNonzero c.retry_max_delay
  pub shutdown : IsNonzero c.worker_shutdown_timeout
  pub max_conns : IsWithin 31 c.db_max_conns
  pub min_conns : IsWithin 31 c.db_min_conns
  pub batch : IsWithin 31 c.reconciliation_batch_size
  pub attempts : IsWithin 63 c.max_attempts
  pub max_len : IsWithin 63 c.redis_stream_max_len
  pub port : str_eq c.port "" ≡ false
  pub stream : str_eq c.redis_stream "" ≡ false
  pub group : str_eq c.redis_consumer_group "" ≡ false
  pub role : str_eq c.role "" ≡ false

pub then-loaded :
    {A : Type 0} (r : Loaded (Unit {0})) (a b : A)
    → (r >> loaded a) ≡ loaded b
    → (r ≡ loaded tt) × (a ≡ b)
then-loaded (loaded u) a b h = (refl, cc)
then-loaded (failed e) a b h = absurd (ground (arith, h))

module _ (getenv : String → String) (parse_duration_text : Bytes → Option ℤ) (uuid : String) where
  lax-IsWithin :
      (key : String) (n : ℕ)
      → n < 2 ^ 63
      → IsWithin 63 (or_zero (parse_int getenv parse_duration_text uuid key (pos n)))
  unfolding parse_int
  lax-IsWithin key n h = elim (Bool-cases (str_eq (getenv key) "")) [
    | inl e ↦ rw e h
    | inr e ↦ elim (Option-cases (parse_int64 (codes (getenv key)))) [
      | inl n ↦ rw (e, n) (omega arith)
      | inr (z, p) ↦ rw (e, p) (parse_int64-IsWithin _ z p)
    ]
  ]

  assemble-IsFilled : (v : Checked) → IsFilled (assemble getenv parse_duration_text uuid v)
  unfolding assemble
  assemble-IsFilled v = record {
    heartbeat = unless_zero-IsNonzero _ _;
    heartbeat_timeout = unless_zero-IsNonzero _ _;
    lease = unless_zero-IsNonzero _ _;
    renew = unless_zero-IsNonzero _ _;
    recovery = unless_zero-IsNonzero _ _;
    base_delay = unless_zero-IsNonzero _ _;
    max_delay = unless_zero-IsNonzero _ _;
    shutdown = unless_zero-IsNonzero _ _;
    max_conns = to_int32-IsWithin v.max_conns;
    min_conns = to_int32-IsWithin v.min_conns;
    batch = to_int32-IsWithin v.recon_batch;
    attempts = lax-IsWithin "MAX_ATTEMPTS" 5 (omega arith);
    max_len = lax-IsWithin "REDIS_STREAM_MAXLEN" 10000 (omega arith);
    port = or_default-nonempty "8080" (getenv "PORT") refl;
    stream = or_default-nonempty "execution-jobs" (getenv "REDIS_STREAM") refl;
    group = or_default-nonempty "execution-workers" (getenv "REDIS_CONSUMER_GROUP") refl;
    role = or_default-nonempty "all" (getenv "ROLE") refl;
  }

  finish-IsUsable :
      (r : Loaded Checked) (c : Config)
      → (r >>= finish getenv parse_duration_text uuid) ≡ loaded c
      → IsUsable c × IsFilled c
  unfolding finish
  finish-IsUsable (failed e) c h = absurd (ground (arith, h))
  finish-IsUsable (loaded v) c h =
      let c' = assemble getenv parse_duration_text uuid v in
      let (a, b) = then-loaded (validate c') c' c h in
      subst (λ x. IsUsable x × IsFilled x) b (validate-IsUsable c' a, assemble-IsFilled v)

  -- In a configuration that Load returns, whatever the environment says, the mode is one of the
  -- three; the timeouts of a compilation and of a run, the limits of output and of processes, and the
  -- numbers of workers, of queued jobs, of connections at most and of rows in a batch are positive,
  -- the last two as int32; heartbeat, lease, recovery and retry times and the wait for the workers
  -- are not 0, but may be negative; the numbers of connections and the batch are in the range of
  -- int32, the attempts and the length of the stream in that of int64; and port, stream, group and
  -- role are not empty. Of the other fields nothing is said.
  pub load-IsUsable :
      (c : Config) → load getenv parse_duration_text uuid ≡ loaded c → IsUsable c × IsFilled c
  unfolding load
  load-IsUsable c h = finish-IsUsable (read_checked getenv parse_duration_text uuid) c h
