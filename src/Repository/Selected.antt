-- ===== src/Repository/Selected.antt =====
-- Lemmas on the rows that a WHERE selects and on the row that a key selects.
use codera.Base.{
  String, Bool, true, false, List, [], ◌∷◌, ◌++◌, ◌≡◌, refl, arith, str_eq, eq_iff, Bool-cases, inl,
  inr,
}
use mathlib.Core.List.{Mem, not-mem-nil, eq-or-mem_of_mem-cons}
use mathlib.Core.Logic.Or
use codera.Repository.Rows.{Looked, found, missing, select, look_up}

module _ {A : Type 0} (p : A → Bool) where
  pub select-append : (xs ys : List A) → select p (xs ++ ys) ≡ select p xs ++ select p ys
  select-append [] ys = refl
  select-append (x ∷ xs) ys = elim (Bool-cases (p x)) [
    | inl e ↦ rw (e, select-append xs ys) refl
    | inr e ↦ rw (e, select-append xs ys) refl
  ]

  pub mem-select : (a : A) (xs : List A) → Mem a (select p xs) → p a ≡ true
  mem-select a [] m = absurd (not-mem-nil m)
  mem-select a (x ∷ xs) m = elim (Bool-cases (p x)) [
    | inl e ↦
        let is_prop : IsProp (p a ≡ true) = hlevel in
        Or.elim is_prop (eq-or-mem_of_mem-cons (rw e at m)) (λ q. rw q e) (mem-select a xs)
    | inr e ↦ mem-select a xs (rw e at m)
  ]

pub select-true : {A : Type 0} (xs : List A) → select (λ x. true) xs ≡ xs
select-true [] = refl
select-true (x ∷ xs) = rw (select-true xs) refl

module _ {A : Type 0} (key : A → String) where
  -- What is found has the key.
  pub look_up-found :
      (up : Bool) (id : String) (t : List A) (r : A) → look_up key up id t ≡ found r → key r ≡ id
  unfolding look_up
  look_up-found false id t r h = ground (arith, h)
  look_up-found true id [] r h = ground (arith, h)
  look_up-found true id (x ∷ t) r h = elim (Bool-cases (str_eq (key x) id)) [
    | inl e ↦
        let h' : Path (Looked A) (found x) (found r) = rw e at h in
        let k : x ≡ r = cc in rw (← k) ((eq_iff (key x) id).0 e)
    | inr e ↦ look_up-found true id t r (rw e at h)
  ]

  -- A row that is added at the end is found if no row before it has its key.
  pub look_up-append :
      (id : String) (t : List A) (r : A)
      → look_up key true id t ≡ missing
      → key r ≡ id
      → look_up key true id (t ++ r ∷ []) ≡ found r
  unfolding look_up
  look_up-append id [] r h k = rw ((eq_iff (key r) id).1 k) refl
  look_up-append id (x ∷ t) r h k = elim (Bool-cases (str_eq (key x) id)) [
    | inl e ↦ absurd (ground (arith, rw e at h))
    | inr e ↦ rw e (look_up-append id t r (rw e at h) k)
  ]
