-- ===== src/Jobs/Runs.antt =====
-- Theorems on the table after any history: any operations, at any moments, in any order.
use codera.Base.{ℕ, String, true, none, some, [], ◌∷◌, ◌≡◌, arith, eq_iff, ◌⊎◌, inl, inr, All}
use codera.Jobs.Job.{ExecutionJob, is_queued}
use codera.Jobs.Table.{Table, answered, refused, lost, Moment, find}
use codera.Jobs.Store.{create, inserted}
use codera.Jobs.Rows.{Unique, after, All-exec, find-exec, Unique-exec}
use codera.Jobs.History.{
  Operation, insert, update, Update, History, apply, apply_update, apply_update_lem, run, guard,
  action, effect,
}
use codera.Jobs.Lifecycle.{IsValid, inserted-IsValid, action-IsValid, id-action}

-- An insertion adds the row at the head, or changes nothing.
pub create-cases :
    (m : Moment) (j : ExecutionJob) (t : Table)
    → ((create m j t).0 ≡ t)
      ⊎ (((create m j t).0 ≡ inserted j ∷ t) × (is_queued j.status ≡ true) × (find j.id t ≡ none))
unfolding create
create-cases m j t = ground arith

module _ {ℓ} (P : ExecutionJob → Type ℓ) where
  -- A predicate on rows that insertions establish and updates keep holds of every row.
  pub All-run :
      ((j : ExecutionJob) → is_queued j.status ≡ true → P (inserted j))
      → ((now : ℕ) (u : Update) (r : ExecutionJob)
          → P r
          → guard now u r ≡ true
          → P (action now u r))
      → (h : History) (t : Table) → All P t
      → All P (run h t)
  unfolding run apply
  All-run new keep [] t a = a
  All-run new keep ((m, insert j) ∷ h) t a = elim (create-cases m j t) [
    | inl e ↦ rw e (All-run new keep h t a)
    | inr (e, q, _) ↦ rw e (All-run new keep h (inserted j ∷ t) (new j q, a))
  ]
  All-run new keep ((m, update u) ∷ h) t a =
      All-run new keep h (apply_update m u t) (
        rw apply_update_lem
          (All-exec (guard m.now u) (action m.now u) P (keep m.now u) m.reply t a))

pub run-IsValid : (h : History) → All IsValid (run h [])
run-IsValid h = All-run IsValid inserted-IsValid action-IsValid h [] tt

create-Unique : (m : Moment) (j : ExecutionJob) (t : Table) → Unique t → Unique (create m j t).0
create-Unique m j t u = elim (create-cases m j t) [
  | inl e ↦ rw e u
  | inr (e, _, absent) ↦ rw e (unfold inserted in (absent, u))
]

-- Any operations, at any moments and in any order, keep the keys of a table unique.
pub run-Unique : (h : History) (t : Table) → Unique t → Unique (run h t)
unfolding run apply
run-Unique [] t u = u
run-Unique ((m, insert j) ∷ h) t u = run-Unique h (create m j t).0 (create-Unique m j t u)
run-Unique ((m, update x) ∷ h) t u = run-Unique h (apply_update m x t) (
    rw apply_update_lem
      (Unique-exec (guard m.now x) (action m.now x) (id-action m.now x) m.reply t u))

-- What an operation does to the row under one key that is there.
pub find-create :
    (m : Moment) (j : ExecutionJob) (id : String) (t : Table) {r : ExecutionJob}
    → find id t ≡ some r
    → find id (create m j t).0 ≡ some r
unfolding create find inserted
find-create m j id t h = ground (arith, eq_iff j.id id)

pub find-update :
    (m : Moment) (u : Update) (id : String) (t : Table) {r : ExecutionJob}
    → find id t ≡ some r
    → find id (apply_update m u t) ≡ some (after m.reply (guard m.now u) (action m.now u) r)
find-update m u id t h =
    rw apply_update_lem
      (rw (find-exec (guard m.now u) (action m.now u) (id-action m.now u) m.reply id t) (rw h))

-- A relation to a row of now that updates keep holds of the row under its key ever after.
module _ {ℓ} (P : ExecutionJob → Type ℓ) where
  pub after-keeps :
      (m : Moment) (u : Update) (r : ExecutionJob)
      → P r
      → P (effect m.now u r)
      → P (after m.reply (guard m.now u) (action m.now u) r)
  unfolding effect
  after-keeps m u r p q = elim m.reply as (λ a. P (after a (guard m.now u) (action m.now u) r)) [
    | answered ↦ q
    | refused ↦ p
    | lost ↦ q
  ]

  -- The same with the replies of the database in sight.
  pub find-run_replies :
      (Q : Moment → Operation → Type 0)
      → ((m : Moment) (u : Update) (r : ExecutionJob)
          → Q m (update u)
          → P r
          → P (after m.reply (guard m.now u) (action m.now u) r))
      → (h : History) (id : String) (t : Table) {r : ExecutionJob} → All (λ o. Q o.0 o.1) h
      → find id t ≡ some r
      → P r
      → (s : ExecutionJob) × (find id (run h t) ≡ some s) × P s
  unfolding run apply
  find-run_replies Q keep [] id t {r} q e p = (r, e, p)
  find-run_replies Q keep ((m, insert j) ∷ h) id t {r} (_, qs) e p =
      find-run_replies Q keep h id (create m j t).0 qs (find-create m j id t e) p
  find-run_replies Q keep ((m, update u) ∷ h) id t {r} (q, qs) e p =
      find-run_replies Q keep h id (apply_update m u t) qs (find-update m u id t e) (keep m u r q p)

  pub find-run :
      (Q : Moment → Operation → Type 0)
      → ((m : Moment) (u : Update) (r : ExecutionJob) → Q m (update u) → P r → P (effect m.now u r))
      → (h : History) (id : String) (t : Table) {r : ExecutionJob} → All (λ o. Q o.0 o.1) h
      → find id t ≡ some r
      → P r
      → (s : ExecutionJob) × (find id (run h t) ≡ some s) × P s
  find-run Q keep h id t q e p =
      find-run_replies Q (λ m u r q p. after-keeps m u r p (keep m u r q p)) h id t q e p

  anything : (h : History) → All (λ o. Unit {0}) h
  anything [] = tt
  anything (o ∷ h) = (tt, anything h)

  pub find-run_any :
      ((m : Moment) (u : Update) (r : ExecutionJob) → P r → P (effect m.now u r))
      → (h : History) (id : String) (t : Table) {r : ExecutionJob} → find id t ≡ some r
      → P r
      → (s : ExecutionJob) × (find id (run h t) ≡ some s) × P s
  find-run_any keep h id t e p =
      find-run (λ m o. Unit {0}) (λ m u r _ q. keep m u r q) h id t (anything h) e p
