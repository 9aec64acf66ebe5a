-- ===== src/Jobs/Snapshot.antt =====
-- Theorems on the table `executions` as its clients see it: the order of its rows is forgotten, and
-- so is the order of operations on different jobs.
use mathlib.Core.Quot
use mathlib.Core.Quot.{Quot, Quot-set}
use codera.Base.{
  String, Bool, false, ◌&&◌, ◌||◌, [], ◌∷◌, ◌++◌, ◌≡◌, refl, sym, ap, ◌∙◌, arith, Bool-cases, inl,
  inr,
}
use codera.Jobs.Table.{Table, Moment, find}
use codera.Jobs.Store.{get}
use codera.Jobs.History.{Operation, History, run}
use codera.Jobs.Cells.{Cell, names, run_cell, run-cells}

-- Two tables hold the same row, or none, under each key.
abbrev pub SameCells : Table → Table → Type 0
SameCells t u = (id : String) → find id t ≡ find id u

abbrev pub Snapshot : Type 0
Snapshot = Quot SameCells

run-SameCells : (h : History) (t u : Table) → SameCells t u → SameCells (run h t) (run h u)
run-SameCells h t u e id = run-cells h id t ∙ (ap (run_cell id h) (e id) ∙ sym (run-cells h id u))

-- A history on what clients see.
pub run_snapshot : History → Snapshot → Snapshot
run_snapshot h =
    Quot.lift Quot-set (λ t. Quot.mk (run h t)) (λ t u e. Quot.sound (run-SameCells h t u e))

abbrev pub names_any : String → History → Bool
names_any id [] = false
names_any id ((m, o) ∷ h) = names id o || names_any id h

-- No key is named by operations of both.
abbrev pub Apart : History → History → Type 0
Apart h k = (id : String) → (names_any id h && names_any id k) ≡ false

-- `l` is made of the operations of `h` and those of `k`, each in their own order.
pub data Interleaves : History → History → History → Type 0 where
  nothing : Interleaves [] [] []
  left :
      {h k l : History} (o : Moment × Operation) → Interleaves h k l → Interleaves (o ∷ h) k (o ∷ l)
  right :
      {h k l : History} (o : Moment × Operation) → Interleaves h k l → Interleaves h (o ∷ k) (o ∷ l)

or_left : (a b : Bool) → (a || b) ≡ false → a ≡ false
or_left a b e = ground arith

or_right : (a b : Bool) → (a || b) ≡ false → b ≡ false
or_right a b e = ground arith

run_cell-append :
    (id : String) (h k : History) (c : Cell)
    → run_cell id (h ++ k) c ≡ run_cell id k (run_cell id h c)
run_cell-append id [] k c = refl
run_cell-append id ((m, o) ∷ h) k c = run_cell-append id h k _

unnamed : (id : String) (h : History) (c : Cell) → names_any id h ≡ false → run_cell id h c ≡ c
unnamed id [] c e = refl
unnamed id ((m, o) ∷ h) c e = ground (arith, e, unnamed id h c)

left_only :
    (id : String) {h k l : History} (c : Cell)
    → Interleaves h k l
    → names_any id k ≡ false
    → run_cell id l c ≡ run_cell id h c
left_only id c nothing e = refl
left_only id c (left (m, o) i) e = left_only id _ i e
left_only id c (right {k} (m, o) i) e =
    let n : names id o ≡ false = or_left (names id o) (names_any id k) e in
    rw n (left_only id c i (or_right (names id o) (names_any id k) e))

right_only :
    (id : String) {h k l : History} (c : Cell)
    → Interleaves h k l
    → names_any id h ≡ false
    → run_cell id l c ≡ run_cell id k c
right_only id c nothing e = refl
right_only id c (right (m, o) i) e = right_only id _ i e
right_only id c (left {h} (m, o) i) e =
    let n : names id o ≡ false = or_left (names id o) (names_any id h) e in
    rw n (right_only id c i (or_right (names id o) (names_any id h) e))

-- One after the other, the two leave what the one leaves that names the key.
interleaved :
    (id : String) {h k l : History} (c : Cell)
    → Apart h k
    → Interleaves h k l
    → run_cell id l c ≡ run_cell id (h ++ k) c
interleaved id {h} {k} c a i = elim (Bool-cases (names_any id k)) [
  | inl named ↦
      let e : names_any id h ≡ false = ground (arith, a id, named) in
      right_only id c i e ∙ (sym (rw (unnamed id h c e) refl) ∙ sym (run_cell-append id h k c))
  | inr e ↦
      left_only id c i e ∙ (sym (unnamed id k (run_cell id h c) e) ∙ sym (run_cell-append id h k c))
]

find-interleaved :
    (h k l : History) (t : Table)
    → Apart h k
    → Interleaves h k l
    → SameCells (run l t) (run (h ++ k) t)
find-interleaved h k l t a i id =
    run-cells l id t ∙ (interleaved id (find id t) a i ∙ sym (run-cells (h ++ k) id t))

get-SameCells : (m : Moment) (id : String) (t u : Table) → SameCells t u → get m id t ≡ get m id u
unfolding get
get-SameCells m id t u e = ground (arith, e id)

-- Operations on different jobs are independent: if no key is named by both of two histories, such
-- as those of two workers, and neither sweeps the whole table while the other writes, then every
-- interleaving of the two leaves the same as one after the other, whatever the moments and the
-- replies of the database: the same snapshot, and the same answer to every Get.
pub interleavings_agree :
    (h k l : History)
    → Apart h k
    → Interleaves h k l
    → ((s : Snapshot) → run_snapshot l s ≡ run_snapshot (h ++ k) s)
      × ((m : Moment) (id : String) (t : Table) → get m id (run l t) ≡ get m id (run (h ++ k) t))
unfolding run_snapshot
interleavings_agree h k l a i = (
  Quot.ind (λ s. Quot-set _ _) (λ t. Quot.sound (find-interleaved h k l t a i)),
  λ m id t. get-SameCells m id _ _ (find-interleaved h k l t a i),
)
