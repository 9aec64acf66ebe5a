-- ===== src/Repository/Rows.antt =====
-- The statements of SQL that the three repositories of backend/internal/repository share.
use codera.Base.{
  String, Bool, true, false, Option, none, some, List, [], ◌∷◌, ◌++◌, str_eq, if◌then◌else◌,
}
use mathlib.Core.List.{Perm}

-- What becomes of an INSERT: the id that the database gives is returned, or the statement is
-- refused, or it is carried out and its answer is lost.
pub data InsertReply : Type 0 where
  returned : String → InsertReply
  refused : InsertReply
  lost : String → InsertReply

-- An answer of a repository: a value, that it is not there, or any other error.
pub data Looked {ℓ} (A : Type ℓ) : Type ℓ where
  found : A → Looked A
  missing failing : Looked A

module _ {A : Type 0} where
  -- INSERT ... RETURNING id, of a row that is known but for its id
  unfoldable pub insert : (String → A) → InsertReply → List A → List A × Option A
  insert row (returned id) t = (t ++ row id ∷ [], some (row id))
  insert row refused t = (t, none)
  insert row (lost id) t = (t ++ row id ∷ [], none)

  -- The rows for which the condition of a WHERE holds.
  abbrev pub select : (A → Bool) → List A → List A
  select p [] = []
  select p (r ∷ t) = if p r then r ∷ select p t else select p t

  -- QueryRow of a SELECT by primary key; the argument says whether the database answers.
  unfoldable pub look_up : (A → String) → Bool → String → List A → Looked A
  look_up key false id t = failing
  look_up key true id [] = missing
  look_up key true id (r ∷ t) = if str_eq (key r) id then found r else look_up key true id t

  -- Each row stands before the next.
  abbrev pub Sorted : (A → A → Type 0) → List A → Type 0
  Sorted Before [] = Unit
  Sorted Before (x ∷ []) = Unit
  Sorted Before (x ∷ y ∷ ys) = Before x y × Sorted Before (y ∷ ys)

-- ORDER BY: the rows that were selected, in an order of which no more than the clause is known.
pub record OrderBy (A : Type 0) (Before : A → A → Type 0) : Type 0 where
  pub order_by : List A → List A
  pub order_by-Perm : (rows : List A) → Perm (order_by rows) rows
  pub order_by-Sorted : (rows : List A) → Sorted Before (order_by rows)
