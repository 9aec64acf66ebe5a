-- ===== src/Server/RoundTrip.antt =====
-- Theorems on server/problem_handler.go and the repositories together: a problem that has been
-- created is what the queries answer.
use codera.Base.{
  ℕ, ◌+◌, String, Bool, true, false, ◌||◌, some, List, [], ◌∷◌, ◌++◌, ◌≡◌, refl, sym, subst, ◌∙◌,
  arith, str_eq, eq_refl, All, inl, inr,
}
use mathlib.Core.List.{Perm}
use codera.Domain.{Problem, TestCase}
use codera.Repository.Rows.{InsertReply, missing, OrderBy, select}
use codera.Repository.Problems as Problems
use codera.Repository.TestCases.{IsEarlier, is_public, matches, get_by_problem_id}
use codera.Repository.Selected.{select-append, select-true, look_up-append}
use codera.Server.Problems.{
  Tables, CreateFullProblemRequest, Shown, numbered, show, after_problem, get_problem,
  create_full_problem,
}
use codera.Server.FullProblems.{number_all, with_ids, create_full_problem-AddsProblem}

-- The test cases added belong to the problem, so that a query selects them by visibility alone.
select-added :
    (problem_id : String) (include_hidden : Bool) (i : ℕ) (ids : List String) (tcs : List TestCase)
    → select (matches problem_id include_hidden) (with_ids ids (number_all problem_id i tcs))
      ≡ select
          (λ tc. include_hidden || is_public tc.visibility)
          (with_ids ids (number_all problem_id i tcs))
unfolding numbered
select-added problem_id include_hidden i [] tcs = refl
select-added problem_id include_hidden i (id ∷ ids) [] = refl
select-added problem_id include_hidden i (id ∷ ids) (tc ∷ tcs) =
    let e = select-added problem_id include_hidden (i + 1) ids tcs in
    rw (eq_refl problem_id, e) refl

-- No row of the table is a test case of the problem.
abbrev pub HasNone : String → List TestCase → Type 0
HasNone id = All (λ tc. str_eq tc.problem_id id ≡ false)

select-HasNone :
    (id : String) (include_hidden : Bool) (t : List TestCase)
    → HasNone id t
    → select (matches id include_hidden) t ≡ []
select-HasNone id include_hidden [] h = refl
select-HasNone id include_hidden (tc ∷ t) (h, hs) = rw h (select-HasNone id include_hidden t hs)

-- What the query selects of the table that createFullProblem leaves.
abbrev pub Selects : String → List TestCase → List TestCase → Type 0
Selects id t rows =
    (include_hidden : Bool)
    → select (matches id include_hidden) t
      ≡ select (λ tc. include_hidden || is_public tc.visibility) rows

Selects-added :
    (id : String) (ids : List String) (tcs t : List TestCase)
    → HasNone id t
    → Selects id (t ++ with_ids ids (number_all id 0 tcs)) (with_ids ids (number_all id 0 tcs))
Selects-added id ids tcs t h include_hidden =
    rw
      (
        select-append (matches id include_hidden) t (with_ids ids (number_all id 0 tcs)),
        select-HasNone id include_hidden t h,
      )
      (select-added id include_hidden 0 ids tcs)

module _ {Float : Type 0} (o : OrderBy TestCase IsEarlier) where
  -- The judge's query answers all the test cases of what was created, and getProblem the problem
  -- with those that are public.
  abbrev pub IsServed : Tables Float → Shown Float → Type 0
  IsServed t shown =
      ((rows : List TestCase) × (get_by_problem_id o true shown.problem.id true t.test_cases
          ≡ some rows)
        × Perm rows shown.test_cases)
      × ((page : Shown Float) × (get_problem o true true shown.problem.id t
            ≡ record { status_code = 200; body = some page })
          × (page.problem ≡ shown.problem)
          × Perm page.test_cases (select (λ tc. is_public tc.visibility) shown.test_cases))

  stored-IsServed :
      (p : Problem Float) (ids : List String) (tcs : List TestCase) (t : Tables Float)
      → Problems.get_by_id true p.id t.problems ≡ missing
      → HasNone p.id t.test_cases
      → IsServed
          (record {
            problems = t.problems ++ p ∷ [];
            test_cases = t.test_cases ++ with_ids ids (number_all p.id 0 tcs);
          })
          (record { problem = p; test_cases = with_ids ids (number_all p.id 0 tcs) })
  unfolding get_problem after_problem show get_by_problem_id Problems.get_by_id
  stored-IsServed p ids tcs t m h =
      let rows = with_ids ids (number_all p.id 0 tcs) in
      let e = Selects-added p.id ids tcs t.test_cases h in
      let cases = t.test_cases ++ rows in
      let all : List TestCase = select (matches p.id true) cases in
      let shown_rows : List TestCase = select (matches p.id false) cases in
      let f = look_up-append (λ q. q.id) p.id t.problems p m refl in
      (
        (
          o.order_by all,
          refl,
          subst (Perm (o.order_by all)) (e true ∙ select-true rows) (o.order_by-Perm all),
        ),
        (
          record { problem = p; test_cases = o.order_by shown_rows },
          rw f refl,
          refl,
          subst (Perm (o.order_by shown_rows)) (e false) (o.order_by-Perm shown_rows),
        ),
      )

  tables_eq :
      (t : Tables Float) (ps : List (Problem Float)) (cs : List TestCase)
      → t.problems ≡ ps
      → t.test_cases ≡ cs
      → t ≡ record { problems = ps; test_cases = cs }
  tables_eq t ps cs e e' = rw (← e, ← e') refl

  -- After createFullProblem has answered with a problem whose id no problem and no test case had
  -- before, the query of the judge answers exactly its test cases in some order, and getProblem
  -- answers 200 with the problem and exactly those of its test cases that are public.
  pub create_full_problem-IsServed :
      (reply : InsertReply) (replies : ℕ → InsertReply) (req : CreateFullProblemRequest Float)
      (t : Tables Float) (shown : Shown Float)
      → (create_full_problem reply replies (some req) t).1.body ≡ some shown
      → Problems.get_by_id true shown.problem.id t.problems ≡ missing
      → HasNone shown.problem.id t.test_cases
      → IsServed (create_full_problem reply replies (some req) t).0 shown
  create_full_problem-IsServed reply replies req t shown b m h =
      elim (create_full_problem-AddsProblem reply replies req t) [
        | inl (e, (k, n)) ↦ absurd (ground (arith, n, b))
        | inr (id, ids, ps, cs, inl (k, n)) ↦ absurd (ground (arith, n, b))
        | inr (id, ids, ps, cs, inr (k, l, e)) ↦
            let p = record req.problem { id = id } in
            let added = with_ids ids (number_all id 0 req.test_cases) in
            let q : record { problem = p; test_cases = added } ≡ shown = ground (arith, e, b) in
            let w : Tables Float = (create_full_problem reply replies (some req) t).0 in
            subst (λ x. IsServed x shown) (sym (tables_eq w _ _ ps cs))
              (subst
                (λ x.
                  Problems.get_by_id true x.problem.id t.problems ≡ missing
                  → HasNone x.problem.id t.test_cases
                  → IsServed
                      (record {
                        problems = t.problems ++ p ∷ [];
                        test_cases = t.test_cases ++ added;
                      })
                      x)
                q (stored-IsServed p ids req.test_cases t) m h)
      ]
