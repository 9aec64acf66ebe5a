-- ===== src/Sandbox/Outcomes.antt =====
-- Theorems on a command in the sandbox, from the behaviour of its process to the classifier.
use codera.Base.{
  ℕ, String, Bool, true, false, Option, none, some, List, [], ◌≡◌, ◌↔◌, ◌⊎◌, arith, Bytes, length,
  take, ltb, if◌then◌else◌,
}
use codera.Config.Numbers.{ℤ}
use codera.Domain.{code, success}
use codera.Process.Capture.{concat, capture_lem}
use codera.Process.Run.{ProcessError, exit_error, ctx_done, waited, Behaviour, run_process}
use codera.Sandbox.Exec.{ExecOptions, exec, exec_args}
use codera.Sandbox.Classifier.{classify}

abbrev pub exceeds : ℕ → List Bytes → Bool
exceeds limit chunks = ltb limit (length (concat chunks))

abbrev pub started : Option ProcessError → Bool
started none = true
started (some e) = false

-- os/exec: Start does not return an ExitError.
abbrev pub is_exit_error : Option ProcessError → Bool
is_exit_error (some (exit_error c)) = true
is_exit_error _ = false

module _ (os : List String → Option Bytes → ℤ → Behaviour) (container : String)
    (opts : ExecOptions) where
  abbrev pub behaviour : Behaviour
  behaviour = os (exec_args container opts) opts.stdin opts.timeout

  -- Whatever the process writes and however it ends, what is kept of each stream is its first
  -- bytes up to the limit, or nothing if the process does not start.
  output_is_prefix :
      ((exec os container opts).stdout ≡ (
        if started behaviour.start_error
        then take opts.stdout_limit (concat behaviour.out_chunks)
        else []))
      × ((exec os container opts).stderr ≡ (
          if started behaviour.start_error
          then take opts.stderr_limit (concat behaviour.err_chunks)
          else []))
  unfolding exec run_process
  output_is_prefix = ground (
    arith,
    capture_lem opts.stdout_limit true behaviour.out_chunks,
    capture_lem opts.stderr_limit true behaviour.err_chunks,
  )

  -- Where Start does not fail with an ExitError, a command is classified as a success exactly if
  -- the process starts, stays within both output limits, and exits with 0 or is cut short by the
  -- end of its context.
  pub success_exact :
      is_exit_error behaviour.start_error ≡ false
      → ((classify (exec os container opts)).status ≡ success) ↔ (
          (behaviour.start_error ≡ none)
          × (exceeds opts.stdout_limit behaviour.out_chunks ≡ false)
          × (exceeds opts.stderr_limit behaviour.err_chunks ≡ false)
          × ((behaviour.ended ≡ ctx_done)
              ⊎ (behaviour.ended ≡ waited none)
              ⊎ (behaviour.ended ≡ waited (some (exit_error (code 0))))))
  unfolding exec run_process classify
  success_exact s = ground (
    arith,
    capture_lem opts.stdout_limit true behaviour.out_chunks,
    capture_lem opts.stderr_limit true behaviour.err_chunks,
  )
