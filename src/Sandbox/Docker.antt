-- ===== src/Sandbox/Docker.antt =====
-- NewRuntime and createSeccompProfile of backend/internal/sandbox/docker/runtime.go. The temporary
-- file that the system makes is an argument; what docker does with the profile is outside.
use codera.Base.{String, Option, none, some, List, [], ◌∷◌}
use codera.Config.Checks.{Config}

pub data Action : Type 0 where
  act_allow act_errno : Action

-- The profile: one rule for the names, and the default for all other system calls.
pub record SeccompProfile : Type 0 where
  pub default_action : Action
  pub architectures : List String
  pub names : List String
  pub action : Action

abbrev pub seccomp_profile : SeccompProfile
seccomp_profile = record {
  default_action = act_allow;
  architectures = "SCMP_ARCH_X86_64" ∷ "SCMP_ARCH_AARCH64" ∷ [];
  names =
      "mount" ∷ "umount2" ∷ "ptrace" ∷ "unshare" ∷ "setns" ∷ "bpf" ∷ "kexec_load"
      ∷ "kexec_file_load" ∷ "init_module" ∷ "finit_module" ∷ "delete_module" ∷ "create_module"
      ∷ "swapon" ∷ "swapoff" ∷ "reboot" ∷ "sethostname" ∷ "setdomainname" ∷ "iopl" ∷ "ioperm"
      ∷ "nfsservctl" ∷ "syslog" ∷ "vhangup" ∷ "pivot_root" ∷ "acct" ∷ "quotactl" ∷ "perf_event_open"
      ∷ "process_vm_readv" ∷ "process_vm_writev" ∷ [];
  action = act_errno;
}

-- A file with the profile, written to what os.CreateTemp makes; `none` is its error. The error of
-- the write is not looked at.
pub record Written : Type 0 where
  pub path : String
  pub content : SeccompProfile

-- `none` is a panic.
unfoldable pub create_seccomp_profile : Option String → Option Written
create_seccomp_profile none = none
create_seccomp_profile (some name) = some (record { path = name; content = seccomp_profile })

pub record Runtime : Type 0 where
  pub config : Config
  pub seccomp_path : String

abbrev pub with_profile : Config → Option Written → Option Runtime
with_profile c none = none
with_profile c (some w) = some (record { config = c; seccomp_path = w.path })

unfoldable pub new_runtime : Config → Option String → Option Runtime
unfolding create_seccomp_profile
new_runtime c file = with_profile c (create_seccomp_profile file)
