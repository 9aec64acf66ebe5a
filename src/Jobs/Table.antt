-- ===== src/Jobs/Table.antt =====
-- The table `executions`: the SQL that postgres_store.go and recovery/service.go send, as
-- functions on a list of rows. The primary key is `id`.
use codera.Base.{
  ℕ, suc, String, Bool, true, false, Option, none, some, List, [], ◌∷◌, ltb, leb, if◌then◌else◌,
  str_eq,
}
use codera.Jobs.Job.{ExecutionJob}

abbrev pub Table : Type 0
Table = List ExecutionJob

-- An Exec is carried out and answered, or refused, or carried out with its answer lost.
pub data Reply : Type 0 where
  answered refused lost : Reply

-- One statement of a transaction: the value of NOW(), and what becomes of the statement.
pub record Moment : Type 0 where
  pub now : ℕ
  pub reply : Reply

-- A comparison with NULL is not true, so such a row is not selected.
abbrev pub owned_by : String → Option String → Bool
owned_by worker none = false
owned_by worker (some w) = str_eq w worker

abbrev pub is_past : ℕ → Option ℕ → Bool
is_past now none = false
is_past now (some t) = ltb t now

-- `t IS NULL OR t <= NOW()`
abbrev pub is_due : ℕ → Option ℕ → Bool
is_due now none = true
is_due now (some t) = leb t now

unfoldable pub find : String → Table → Option ExecutionJob
find id [] = none
find id (r ∷ t) = if str_eq r.id id then some r else find id t

-- UPDATE executions SET f WHERE p
unfoldable pub update_where : (ExecutionJob → Bool) → (ExecutionJob → ExecutionJob) → Table → Table
update_where p f [] = []
update_where p f (r ∷ t) = (if p r then f r else r) ∷ update_where p f t

-- RowsAffected() of the same statement
unfoldable pub count_where : (ExecutionJob → Bool) → Table → ℕ
count_where p [] = 0
count_where p (r ∷ t) = let rest = count_where p t in if p r then suc rest else rest

-- The table that Exec leaves, and RowsAffected() or an error.
unfoldable pub exec :
    Reply → (ExecutionJob → Bool) → (ExecutionJob → ExecutionJob) → Table → Table × Option ℕ
exec answered p f t = (update_where p f t, some (count_where p t))
exec refused p f t = (t, none)
exec lost p f t = (update_where p f t, none)
