-- ===== src/Process/Groups.antt =====
-- backend/internal/platform/process: process_linux.go and process_windows.go, and where RunProcess
-- of process.go calls them. What the calls do to the processes is outside.
use codera.Base.{ℕ, Bool, true, Option, none, some, List, [], ◌∷◌}
use codera.Process.Run.{ProcessError, Ended, timer, ctx_done, waited, Behaviour}

pub data Platform : Type 0 where
  linux windows : Platform

-- Whether the process is the first of a group of its own.
pub record SysProcAttr : Type 0 where
  pub setpgid : Bool

-- What the attributes of the command become; `none` is nil.
unfoldable pub set_sys_proc_attr : Platform → Option SysProcAttr → Option SysProcAttr
set_sys_proc_attr linux attr = some (record { setpgid = true })
set_sys_proc_attr windows attr = attr

-- The signal SIGKILL to a group of processes, or taskkill on the tree below a process.
pub data KillCall : Type 0 where
  kill_group taskkill : ℕ → KillCall

-- `none` is a command that has no process.
unfoldable pub kill_process : Platform → Option ℕ → List KillCall
kill_process p none = []
kill_process linux (some pid) = kill_group pid ∷ []
kill_process windows (some pid) = taskkill pid ∷ []

abbrev pub kills_at : Platform → ℕ → Ended → List KillCall
kills_at p pid timer = kill_process p (some pid)
kills_at p pid ctx_done = kill_process p (some pid)
kills_at p pid (waited e) = []

abbrev kills_from : Platform → ℕ → Ended → Option ProcessError → List KillCall
kills_from p pid ended (some e) = []
kills_from p pid ended none = kills_at p pid ended

-- The calls of RunProcess that kill, by the number of the process if it starts.
unfoldable pub run_kills : Platform → ℕ → Behaviour → List KillCall
run_kills p pid b = kills_from p pid b.ended b.start_error
