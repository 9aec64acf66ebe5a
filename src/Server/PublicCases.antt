-- ===== src/Server/PublicCases.antt =====
-- Theorems on getProblem of server/problem_handler.go: which test cases it shows.
use codera.Base.{String, Bool, true, false, some, List, ◌≡◌, refl, arith, eq_iff}
use mathlib.Core.List.{Mem, Perm}
use mathlib.Core.List.Perm as Perm
use codera.Domain.{Problem, TestCase, TestCaseVisibility, visible}
use codera.Repository.Rows.{Looked, found, missing, failing, Sorted, OrderBy, select, look_up}
use codera.Repository.Problems as Problems
use codera.Repository.TestCases.{IsEarlier, is_public, matches, get_by_problem_id}
use codera.Repository.Selected.{mem-select, look_up-found}
use codera.Server.Problems.{Tables, Shown, show, after_problem, get_problem}

is_public-visible : (v : TestCaseVisibility) → is_public v ≡ true → v ≡ visible
is_public-visible visible h = refl
is_public-visible TestCaseVisibility.hidden h = ground (arith, h)
is_public-visible (TestCaseVisibility.other s) h = ground (arith, h)

pub matches-public :
    (id : String) (tc : TestCase)
    → matches id false tc ≡ true
    → (tc.problem_id ≡ id) × (tc.visibility ≡ visible)
matches-public id tc h = (
  (eq_iff tc.problem_id id).0 (ground (arith, h)),
  is_public-visible tc.visibility (ground (arith, h)),
)

module _ {Float : Type 0} where
  -- The problem of the id, and its public test cases, each once, by their sort order.
  abbrev pub ShowsPublic : String → Tables Float → Shown Float → Type 0
  ShowsPublic id t shown =
      (Problems.get_by_id true id t.problems ≡ found shown.problem)
      × (shown.problem.id ≡ id)
      × Perm shown.test_cases (select (matches id false) t.test_cases)
      × Sorted IsEarlier shown.test_cases
      × ((tc : TestCase)
          → Mem tc shown.test_cases
          → (tc.problem_id ≡ id) × (tc.visibility ≡ visible))

  -- Only a database that answers finds a row.
  answered-found :
      (up : Bool) (id : String) (t : List (Problem Float)) (p : Problem Float)
      → Problems.get_by_id up id t ≡ found p
      → Problems.get_by_id true id t ≡ found p
  unfolding Problems.get_by_id look_up
  answered-found false id t p h = ground (arith, h)
  answered-found true id t p h = h

  module _ (o : OrderBy TestCase IsEarlier) where
    show-ShowsPublic :
        (up : Bool) (id : String) (t : Tables Float) (p : Problem Float) (shown : Shown Float)
        → Problems.get_by_id true id t.problems ≡ found p
        → (show p (get_by_problem_id o up id false t.test_cases)).body ≡ some shown
        → ShowsPublic id t shown
    unfolding show get_by_problem_id Problems.get_by_id
    show-ShowsPublic false id t p shown g h = ground (arith, h)
    show-ShowsPublic true id t p shown g h =
        let rows = select (matches id false) t.test_cases in
        let e : record { problem = p; test_cases = o.order_by rows } ≡ shown = cc in
        rw (← e) (
          g,
          look_up-found (λ q. q.id) true id t.problems p g,
          o.order_by-Perm rows,
          o.order_by-Sorted rows,
          λ tc m. matches-public id tc (
              mem-select (matches id false) tc t.test_cases
                ((Perm.mem_iff (o.order_by-Perm rows)).0 m)),
        )

    after_problem-ShowsPublic :
        (up up' : Bool) (id : String) (t : Tables Float) (shown : Shown Float)
        (l : Looked (Problem Float))
        → Problems.get_by_id up id t.problems ≡ l
        → (after_problem o up' id t l).body ≡ some shown
        → ShowsPublic id t shown
    unfolding after_problem
    after_problem-ShowsPublic up up' id t shown missing e h = ground (arith, h)
    after_problem-ShowsPublic up up' id t shown failing e h = ground (arith, h)
    after_problem-ShowsPublic up up' id t shown (found p) e h =
        show-ShowsPublic up' id t p shown (answered-found up id t.problems p e) h

    -- Whenever getProblem answers with a problem, it is the one of that id, with test cases that
    -- all are public and belong to it; none of its public test cases is left out or shown twice,
    -- and they are in ascending sort order.
    pub get_problem-ShowsPublic :
        (up up' : Bool) (id : String) (t : Tables Float) (shown : Shown Float)
        → (get_problem o up up' id t).body ≡ some shown
        → ShowsPublic id t shown
    unfolding get_problem
    get_problem-ShowsPublic up up' id t shown h =
        after_problem-ShowsPublic up up' id t shown (Problems.get_by_id up id t.problems) refl h
