-- ===== src/Tests/Order.antt =====
-- A database's ORDER BY, for the tests: an insertion sort by a total test.
use codera.Base.{
  Bool, true, false, List, [], ◌∷◌, ◌≡◌, arith, ◌≤◌, leb, if◌then◌else◌, Bool-cases, inl, inr, ℕ,
}
use mathlib.Core.List.{Perm}
use mathlib.Core.List.Perm as Perm
use mathlib.Core.Option.{Option}
use codera.Config.Numbers.{ℤ, is_at_most}
use codera.Domain.{TestCase, Problem}
use codera.Repository.Rows.{OrderBy, Sorted}
use codera.Repository.Problems.{IsNewer}
use codera.Repository.TestCases.{IsEarlier}

module _ {A : Type 0} (Before : A → A → Type 0) (goes_first : A → A → Bool)
    (first_lem : (x y : A) → goes_first x y ≡ true → Before x y)
    (second_lem : (x y : A) → goes_first x y ≡ false → Before y x) where
  abbrev place : A → List A → List A
  place x [] = x ∷ []
  place x (y ∷ ys) = if goes_first x y then x ∷ y ∷ ys else y ∷ place x ys

  abbrev sorted : List A → List A
  sorted [] = []
  sorted (x ∷ xs) = place x (sorted xs)

  place-Perm : (x : A) (xs : List A) → Perm (place x xs) (x ∷ xs)
  place-Perm x [] = Perm.refl _
  place-Perm x (y ∷ ys) = elim (Bool-cases (goes_first x y)) [
    | inl e ↦ rw e (Perm.refl _)
    | inr e ↦ rw e (Perm.trans (Perm.cons y (place-Perm x ys)) (Perm.swap x y ys))
  ]

  pub sorted-Perm : (xs : List A) → Perm (sorted xs) xs
  sorted-Perm [] = Perm.refl _
  sorted-Perm (x ∷ xs) = Perm.trans (place-Perm x (sorted xs)) (Perm.cons x (sorted-Perm xs))

  -- After `z`, what stands first.
  cons-Sorted :
      (z x : A) (ys : List A)
      → Before z x
      → Sorted Before (z ∷ ys)
      → Sorted Before (place x ys)
      → Sorted Before (z ∷ place x ys)
  cons-Sorted z x [] h s k = (h, tt)
  cons-Sorted z x (y ∷ ys) h (s, _) k = elim (Bool-cases (goes_first x y)) [
    | inl e ↦ rw e (h, rw e at k)
    | inr e ↦ rw e (s, rw e at k)
  ]

  place-Sorted : (x : A) (xs : List A) → Sorted Before xs → Sorted Before (place x xs)
  place-Sorted x [] h = tt
  place-Sorted x (y ∷ []) h = elim (Bool-cases (goes_first x y)) [
    | inl e ↦ rw e (first_lem x y e, tt)
    | inr e ↦ rw e (second_lem x y e, tt)
  ]
  place-Sorted x (y ∷ z ∷ zs) (h, hs) = elim (Bool-cases (goes_first x y)) [
    | inl e ↦ rw e (first_lem x y e, (h, hs))
    | inr e ↦
        rw e (cons-Sorted y x (z ∷ zs) (second_lem x y e) (h, hs) (place-Sorted x (z ∷ zs) hs))
  ]

  pub sorted-Sorted : (xs : List A) → Sorted Before (sorted xs)
  sorted-Sorted [] = tt
  sorted-Sorted (x ∷ xs) = place-Sorted x (sorted xs) (sorted-Sorted xs)

  abbrev pub insertion_sort : OrderBy A Before
  insertion_sort = record {
    order_by = sorted;
    order_by-Perm = sorted-Perm;
    order_by-Sorted = sorted-Sorted;
  }

pub leb-first : (m n : ℕ) → leb m n ≡ true → m ≤ n
leb-first m n h = ground arith

pub leb-second : (m n : ℕ) → leb m n ≡ false → n ≤ m
leb-second m n h = ground arith

pub at_most-second : (x y : ℤ) → is_at_most x y ≡ false → is_at_most y x ≡ true
at_most-second x y h = ground (arith, h)

abbrev pub by_sort_order : OrderBy TestCase IsEarlier
by_sort_order =
    insertion_sort IsEarlier (λ x y. is_at_most x.sort_order y.sort_order) (λ x y h. h)
      (λ x y. at_most-second x.sort_order y.sort_order)

abbrev pub by_age : OrderBy (Problem (Option ℕ)) IsNewer
by_age =
    insertion_sort IsNewer (λ x y. leb y.created_at x.created_at)
      (λ x y. leb-first y.created_at x.created_at) (λ x y. leb-second y.created_at x.created_at)
