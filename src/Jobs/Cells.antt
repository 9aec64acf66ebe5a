-- ===== src/Jobs/Cells.antt =====
-- Theorems on the table `executions` as a map: each key is a cell of its own.
use codera.Base.{
  ℕ, String, Bool, true, false, Option, none, some, [], ◌∷◌, ◌≡◌, refl, sym, subst, ap, ◌∙◌, arith,
  str_eq, eq_iff, if◌then◌else◌, Bool-cases, inl, inr,
}
use codera.Jobs.Job.{ExecutionJob, is_queued}
use codera.Jobs.Table.{Table, Reply, answered, refused, lost, Moment, find}
use codera.Jobs.Store.{create, inserted, can_claim, can_mark, can_complete, can_fail, can_renew}
use codera.Jobs.Recovery.{has_id}
use codera.Jobs.Rows.{after, find-exec}
use codera.Jobs.History.{
  Operation, insert, update, Update, claim, mark_running, complete, fail_job, renew_lease, recover,
  dispatched, History, apply, apply_update, apply_update_lem, run, guard, action,
}
use codera.Jobs.Lifecycle.{id-action}

-- The specification: what one key holds, by itself.
abbrev pub Cell : Type 0
Cell = Option ExecutionJob

-- A row appears where there was none, unless the statement is refused.
abbrev pub fill : Reply → ExecutionJob → Cell → Cell
fill refused j c = c
fill a j (some r) = some r
fill answered j none = some (inserted j)
fill lost j none = some (inserted j)

-- A row that is there is changed where the guard of the update holds.
abbrev pub change : Moment → Update → Cell → Cell
change m u none = none
change m u (some r) = some (after m.reply (guard m.now u) (action m.now u) r)

abbrev pub step : Moment → Operation → Cell → Cell
step m (insert j) c = if is_queued j.status then fill m.reply j c else c
step m (update u) c = change m u c

-- Whether an operation names the key; the sweep of abandoned jobs names none, and may mean any.
abbrev pub names : String → Operation → Bool
names id (insert j) = str_eq j.id id
names id (update (claim k worker lease)) = str_eq k id
names id (update (mark_running k worker)) = str_eq k id
names id (update (complete k worker results)) = str_eq k id
names id (update (fail_job k worker message backoff)) = str_eq k id
names id (update (renew_lease k worker lease)) = str_eq k id
names id (update recover) = true
names id (update (dispatched k)) = str_eq k id

-- The operations of a history that concern the key, carried out on its cell alone.
abbrev pub run_cell : String → History → Cell → Cell
run_cell id [] c = c
run_cell id ((m, o) ∷ h) c = run_cell id h (if names id o then step m o c else c)

pub find-id : (id : String) (t : Table) (r : ExecutionJob) → find id t ≡ some r → r.id ≡ id
unfolding find
find-id id [] r h = ground (arith, h)
find-id id (x ∷ t) r h = ground (arith, h, eq_iff x.id id, find-id id t r)

other_key : (k id : String) → str_eq k id ≡ false → str_eq id k ≡ false
other_key k id h = ground (arith, eq_iff k id, eq_iff id k)

-- An update whose key is another does not change the row.
guard-names :
    (now : ℕ) (u : Update) (r : ExecutionJob)
    → names r.id (update u) ≡ false
    → guard now u r ≡ false
unfolding guard can_claim can_mark can_complete can_fail can_renew has_id
guard-names now (claim k worker lease) r h = rw (other_key k r.id h) refl
guard-names now (mark_running k worker) r h = rw (other_key k r.id h) refl
guard-names now (complete k worker results) r h = rw (other_key k r.id h) refl
guard-names now (fail_job k worker message backoff) r h = rw (other_key k r.id h) refl
guard-names now (renew_lease k worker lease) r h = rw (other_key k r.id h) refl
guard-names now recover r h = ground (arith, h)
guard-names now (dispatched k) r h = rw (other_key k r.id h) refl

find-update :
    (m : Moment) (u : Update) (id : String) (t : Table)
    → find id (apply_update m u t) ≡ change m u (find id t)
find-update m u id t =
    rw
      (
        apply_update_lem,
        find-exec (guard m.now u) (action m.now u) (id-action m.now u) m.reply id t,
      )
      (ground arith)

find-insert :
    (m : Moment) (j : ExecutionJob) (id : String) (t : Table)
    → find id (create m j t).0
      ≡ (if str_eq j.id id then step m (insert j) (find id t) else find id t)
unfolding create find inserted
find-insert m j id t = ground (arith, eq_iff j.id id)

skip :
    (m : Moment) (u : Update) (id : String) (c : Cell)
    → ((r : ExecutionJob) → c ≡ some r → r.id ≡ id)
    → names id (update u) ≡ false
    → change m u c ≡ c
skip m u id none k h = refl
skip m u id (some r) k h =
    let g : guard m.now u r ≡ false =
      guard-names m.now u r (subst (λ x. names x (update u) ≡ false) (sym (k r refl)) h) in
    elim m.reply as (λ a. Path Cell (some (after a (guard m.now u) (action m.now u) r)) (some r)) [
      | answered ↦ rw g refl
      | refused ↦ refl
      | lost ↦ rw g refl
    ]

-- One operation on the table is one step of the cell, or none.
find-apply :
    (m : Moment) (o : Operation) (id : String) (t : Table)
    → find id (apply m o t) ≡ (if names id o then step m o (find id t) else find id t)
unfolding apply
find-apply m (insert j) id t = find-insert m j id t
find-apply m (update u) id t = elim (Bool-cases (names id (update u))) [
  | inl e ↦ rw e (find-update m u id t)
  | inr e ↦ rw e (find-update m u id t ∙ skip m u id (find id t) (find-id id t) e)
]

-- The table refines a family of cells, one for each key: whatever history of operations, at any
-- moments and with any replies of the database, runs on the table, what it holds under a key is
-- what the operations that name the key, and the sweeps, make of that key's cell alone.
pub run-cells :
    (h : History) (id : String) (t : Table) → find id (run h t) ≡ run_cell id h (find id t)
unfolding run
run-cells [] id t = refl
run-cells ((m, o) ∷ h) id t =
    run-cells h id (apply m o t) ∙ ap (run_cell id h) (find-apply m o id t)
