-- ===== src/Jobs/Rows.antt =====
-- Lemmas on the table of rows: selection by key, UPDATE row by row, and RowsAffected() where the
-- key is unique.
use codera.Base.{
  String, Bool, true, none, some, [], ◌∷◌, ◌≡◌, refl, arith, if◌then◌else◌, str_eq, eq_iff, All,
  Bool-cases, inl, inr,
}
use codera.Jobs.Job.{ExecutionJob}
use codera.Jobs.Table.{Table, Reply, answered, refused, lost, find, update_where, count_where, exec}

-- The primary key: no two rows have one id.
abbrev pub Unique : Table → Type 0
Unique [] = Unit
Unique (r ∷ t) = (find r.id t ≡ none) × Unique t

-- The row that `exec` leaves of a row that it looks at.
abbrev pub after {ℓ} : {A : Type ℓ} → Reply → (A → Bool) → (A → A) → A → A
after refused p f r = r
after answered p f r = if p r then f r else r
after lost p f r = if p r then f r else r

module _ (p : ExecutionJob → Bool) (f : ExecutionJob → ExecutionJob) where
  pub All-update_where {ℓ} :
      (P : ExecutionJob → Type ℓ)
      → ((r : ExecutionJob) → P r → p r ≡ true → P (f r))
      → (t : Table) → All P t
      → All P (update_where p f t)
  unfolding update_where
  All-update_where P keep [] h = tt
  All-update_where P keep (r ∷ t) (h, hs) = elim (Bool-cases (p r)) [
    | inl e ↦ rw e (keep r h e, All-update_where P keep t hs)
    | inr e ↦ rw e (h, All-update_where P keep t hs)
  ]

  pub All-exec {ℓ} :
      (P : ExecutionJob → Type ℓ)
      → ((r : ExecutionJob) → P r → p r ≡ true → P (f r))
      → (a : Reply) (t : Table) → All P t
      → All P (exec a p f t).0
  unfolding exec
  All-exec P keep answered t h = All-update_where P keep t h
  All-exec P keep refused t h = h
  All-exec P keep lost t h = All-update_where P keep t h

  module _ (same_id : (r : ExecutionJob) → (f r).id ≡ r.id) where
    pub find-update_where :
        (id : String) (t : Table)
        → find id (update_where p f t)
          ≡ elim (find id t) [ none ↦ none | some r ↦ some (if p r then f r else r) ]
    unfolding find update_where
    find-update_where id [] = refl
    find-update_where id (r ∷ t) = ground (arith, same_id r, find-update_where id t)

    pub find-exec :
        (a : Reply) (id : String) (t : Table)
        → find id (exec a p f t).0
          ≡ elim (find id t) [ none ↦ none | some r ↦ some (after a p f r) ]
    unfolding exec
    find-exec answered id t = find-update_where id t
    find-exec lost id t = find-update_where id t
    find-exec refused id t = ground arith

    pub Unique-update_where : (t : Table) → Unique t → Unique (update_where p f t)
    unfolding update_where
    Unique-update_where [] u = tt
    Unique-update_where (r ∷ t) (u, us) =
        (ground (arith, same_id r, find-update_where r.id t), Unique-update_where t us)

    pub Unique-exec : (a : Reply) (t : Table) → Unique t → Unique (exec a p f t).0
    unfolding exec
    Unique-exec answered t u = Unique-update_where t u
    Unique-exec lost t u = Unique-update_where t u
    Unique-exec refused t u = u

-- A statement that selects by key meets no other row.
module _ (id : String) (p : ExecutionJob → Bool)
    (by_key : (r : ExecutionJob) → p r ≡ true → r.id ≡ id) where
  count_where_absent : (t : Table) → find id t ≡ none → count_where p t ≡ 0
  unfolding find count_where
  count_where_absent [] h = refl
  count_where_absent (r ∷ t) h = ground (arith, by_key r, eq_iff r.id id, count_where_absent t)

  pub count_where_lem :
      (t : Table)
      → Unique t
      → count_where p t ≡ elim (find id t) [ none ↦ 0 | some r ↦ if p r then 1 else 0 ]
  unfolding find count_where
  count_where_lem [] u = refl
  count_where_lem (r ∷ t) (u, us) = elim (Bool-cases (str_eq r.id id)) [
    | inl e ↦ ground (arith, eq_iff r.id id, count_where_absent t (rw (← (eq_iff r.id id).0 e) u))
    | inr e ↦ ground (arith, by_key r, eq_iff r.id id, count_where_lem t us)
  ]
