-- ===== src/Sandbox/Container.antt =====
-- StartContainer and DestroyContainer of backend/internal/sandbox/docker/runtime.go. The command
-- lines are modelled; what docker does with them is an argument. How a number or a path is
-- printed within an argument is left out: such an argument has a constructor.
use codera.Base.{
  ℕ, String, Bool, true, false, Option, none, some, List, [], ◌∷◌, ◌++◌, ◌≡◌, refl, ◌∙◌, arith,
  if◌then◌else◌, str_eq, eq_refl, Bool-cases, inl, inr, append_assoc, append-nil,
}
use codera.Config.Numbers.{ℤ, pos}
use codera.Sandbox.Profile.{Profile}

pub data Arg : Type 0 where
  word : String → Arg
  seccomp : String → Arg
  number : ℤ → Arg
  cpus : ℕ → Arg
  tmpfs : ℕ → Arg
  mount : String → Arg

-- The command line after "docker".
unfoldable pub start_args : String → String → Profile → List Arg
start_args seccomp_path workspace profile =
    word "run"
    ∷ word "-d"
    ∷ word "--rm"
    ∷ word "--network"
    ∷ word "none"
    ∷ word "--read-only"
    ∷ word "--cap-drop"
    ∷ word "ALL"
    ∷ word "--security-opt"
    ∷ word "no-new-privileges"
    ∷ word "--security-opt"
    ∷ seccomp seccomp_path
    ∷ word "--memory"
    ∷ number profile.memory_limit_bytes
    ∷ word "--cpus"
    ∷ cpus profile.cpu_limit
    ∷ word "--pids-limit"
    ∷ number (pos profile.pids_limit)
    ∷ word "--tmpfs"
    ∷ tmpfs profile.tmpfs_size_bytes
    ∷ word "-v"
    ∷ mount workspace
    ∷ word profile.image
    ∷ word "sleep"
    ∷ word "infinity"
    ∷ []

-- What `docker run` does: it fails, or prints a text, given here without the blanks around it.
pub data DockerReply : Type 0 where
  docker_failed : DockerReply
  printed : String → DockerReply

-- The id of the container; `none` is an error. An empty id is one.
abbrev pub started_id : DockerReply → Option String
started_id docker_failed = none
started_id (printed id) = if str_eq id "" then none else some id

unfoldable pub start_container :
    (List Arg → DockerReply) → String → String → Profile → Option String
start_container docker seccomp_path workspace profile =
    started_id (docker (start_args seccomp_path workspace profile))

-- The command line of DestroyContainer after "docker"; an empty id has none.
unfoldable pub destroy_args : String → Option (List Arg)
destroy_args id = if str_eq id "" then none else some (word "rm" ∷ word "-f" ∷ word id ∷ [])

started_id-nonempty :
    (r : DockerReply) (id : String) → started_id r ≡ some id → str_eq id "" ≡ false
started_id-nonempty docker_failed id h = ground (arith, h)
started_id-nonempty (printed text) id h = elim (Bool-cases (str_eq text "")) [
  | inl e ↦ let k : none ≡ some id = rw e at h in ground (arith, k)
  | inr e ↦ let k : some text ≡ some id = rw e at h in let q : text ≡ id = cc in rw (← q) e
]

-- A container that has been started is one that DestroyContainer removes.
pub started_is_removed :
    (docker : List Arg → DockerReply) (path w : String) (p : Profile) (id : String)
    → start_container docker path w p ≡ some id
    → destroy_args id ≡ some (word "rm" ∷ word "-f" ∷ word id ∷ [])
unfolding start_container destroy_args
started_is_removed docker path w p id h =
    rw (started_id-nonempty (docker (start_args path w p)) id h) refl

-- What the code acquires and releases outside itself.
pub data ResourceCall : Type 0 where
  make_workspace remove_workspace : String → ResourceCall
  start destroy : String → ResourceCall

-- Whether calls nest: what is acquired is released, the last acquired first. `held` is what is
-- acquired and not yet released.
abbrev pop_workspace : String → List ResourceCall → Option (List ResourceCall)
pop_workspace w (make_workspace v ∷ held) = if str_eq v w then some held else none
pop_workspace w _ = none

abbrev pop_container : String → List ResourceCall → Option (List ResourceCall)
pop_container c (start d ∷ held) = if str_eq d c then some held else none
pop_container c _ = none

unfoldable pub nests : List ResourceCall → List ResourceCall → Bool
nests held [] = elim held [ [] ↦ true | _ ↦ false ]
nests held (make_workspace w ∷ calls) = nests (make_workspace w ∷ held) calls
nests held (start c ∷ calls) = nests (start c ∷ held) calls
nests held (remove_workspace w ∷ calls) = elim (pop_workspace w held) [
  | none ↦ false
  | some rest ↦ nests rest calls
]
nests held (destroy c ∷ calls) = elim (pop_container c held) [
  | none ↦ false
  | some rest ↦ nests rest calls
]

-- Calls that leave what is held as it was.
pub record Balanced (calls : List ResourceCall) : Type 0 where
  pub at : (held rest : List ResourceCall) → nests held (calls ++ rest) ≡ nests held rest

pub Balanced-nil : Balanced []
Balanced-nil = record { at = λ held rest. refl }

pub Balanced-append : (xs ys : List ResourceCall) → Balanced xs → Balanced ys → Balanced (xs ++ ys)
Balanced-append xs ys hx hy = record {
  at = λ held rest. rw append_assoc (hx.at held (ys ++ rest) ∙ hy.at held rest);
}

pub Balanced-container :
    (c : String) (calls : List ResourceCall)
    → Balanced calls
    → Balanced (start c ∷ calls ++ destroy c ∷ [])
unfolding nests
Balanced-container c calls h = record {
  at = λ held rest.
      rw append_assoc (h.at (start c ∷ held) (destroy c ∷ rest) ∙ ground (arith, eq_refl c));
}

pub Balanced-workspace :
    (w : String) (calls : List ResourceCall)
    → Balanced calls
    → Balanced (make_workspace w ∷ calls ++ remove_workspace w ∷ [])
unfolding nests
Balanced-workspace w calls h = record {
  at = λ held rest.
      rw append_assoc
        (h.at (make_workspace w ∷ held) (remove_workspace w ∷ rest) ∙ ground (arith, eq_refl w));
}

pub Balanced-nests : (calls : List ResourceCall) → Balanced calls → nests [] calls ≡ true
unfolding nests
Balanced-nests calls h = rw (← append-nil calls) (h.at [] [])
