-- ===== src/Jobs/Queued.antt =====
-- Theorems on FindQueued of jobs/postgres_store.go: selection and order.
use codera.Base.{
  ℕ, ◌≤◌, some, List, [], ◌∷◌, ◌≡◌, arith, leb, if◌then◌else◌, All, Bool-cases, inl, inr, map, take,
}
use mathlib.Core.List.{Perm}
use mathlib.Core.List.Perm
use codera.Jobs.Job.{ExecutionJob}
use codera.Jobs.Table.{Table, Moment, answered}
use codera.Jobs.Store.{is_ready, insert_by_age, ready_by_age, find_queued}

-- The rows that a worker could claim, in the order of the table.
abbrev pub ready_rows : ℕ → Table → List ExecutionJob
ready_rows now [] = []
ready_rows now (r ∷ t) = if is_ready now r then r ∷ ready_rows now t else ready_rows now t

abbrev pub IsOldestFirst : List ExecutionJob → Type 0
IsOldestFirst [] = Unit
IsOldestFirst (r ∷ t) = All (λ s. r.created_at ≤ s.created_at) t × IsOldestFirst t

All-insert_by_age :
    (P : ExecutionJob → Type 0) (r : ExecutionJob) (l : List ExecutionJob)
    → P r
    → All P l
    → All P (insert_by_age r l)
unfolding insert_by_age
All-insert_by_age P r [] p h = (p, tt)
All-insert_by_age P r (s ∷ l) p (q, h) = elim (Bool-cases (leb r.created_at s.created_at)) [
  | inl e ↦ rw e (p, (q, h))
  | inr e ↦ rw e (q, All-insert_by_age P r l p h)
]

All-older :
    (a b : ℕ) (l : List ExecutionJob)
    → a ≤ b
    → All (λ s. b ≤ s.created_at) l
    → All (λ s. a ≤ s.created_at) l
All-older a b [] e h = tt
All-older a b (s ∷ l) e (q, h) = (omega arith, All-older a b l e h)

insert_by_age-IsOldestFirst :
    (r : ExecutionJob) (l : List ExecutionJob) → IsOldestFirst l → IsOldestFirst (insert_by_age r l)
unfolding insert_by_age
insert_by_age-IsOldestFirst r [] h = (tt, tt)
insert_by_age-IsOldestFirst r (s ∷ l) (q, h) = elim (Bool-cases (leb r.created_at s.created_at)) [
  | inl e ↦ rw e ((ground arith, All-older r.created_at s.created_at l (ground arith) q), (q, h))
  | inr e ↦ rw e (
    All-insert_by_age (λ x. s.created_at ≤ x.created_at) r l (ground arith) q,
    insert_by_age-IsOldestFirst r l h,
  )
]

Perm-insert_by_age : (r : ExecutionJob) (l : List ExecutionJob) → Perm (r ∷ l) (insert_by_age r l)
unfolding insert_by_age
Perm-insert_by_age r [] = Perm.refl (r ∷ [])
Perm-insert_by_age r (s ∷ l) = elim (Bool-cases (leb r.created_at s.created_at)) [
  | inl e ↦ rw e (Perm.refl (r ∷ s ∷ l))
  | inr e ↦ rw e (Perm.trans (Perm.swap s r l) (Perm.cons s (Perm-insert_by_age r l)))
]

ready_by_age-IsOldestFirst : (now : ℕ) (t : Table) → IsOldestFirst (ready_by_age now t)
unfolding ready_by_age
ready_by_age-IsOldestFirst now [] = tt
ready_by_age-IsOldestFirst now (r ∷ t) = elim (Bool-cases (is_ready now r)) [
  | inl e ↦
      rw e (insert_by_age-IsOldestFirst r (ready_by_age now t) (ready_by_age-IsOldestFirst now t))
  | inr e ↦ rw e (ready_by_age-IsOldestFirst now t)
]

Perm-ready_by_age : (now : ℕ) (t : Table) → Perm (ready_rows now t) (ready_by_age now t)
unfolding ready_by_age
Perm-ready_by_age now [] = Perm.refl []
Perm-ready_by_age now (r ∷ t) = elim (Bool-cases (is_ready now r)) [
  | inl e ↦ rw e (
      Perm.trans (Perm.cons r (Perm-ready_by_age now t))
        (Perm-insert_by_age r (ready_by_age now t)))
  | inr e ↦ rw e (Perm-ready_by_age now t)
]

-- FindQueued, where the database answers, returns the ids of the first `limit` of a list of all
-- the rows that can be claimed, the oldest first.
find_queued_oldest :
    (m : Moment) (limit : ℕ) (t : Table)
    → m.reply ≡ answered
    → (l : List ExecutionJob) × Perm (ready_rows m.now t) l
      × IsOldestFirst l
      × (find_queued m limit t ≡ some (map (λ r. r.id) (take limit l)))
unfolding find_queued
find_queued_oldest m limit t a =
    (ready_by_age m.now t, Perm-ready_by_age m.now t, ready_by_age-IsOldestFirst m.now t, rw a)
