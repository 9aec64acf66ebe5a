-- ===== src/Server/FullProblems.antt =====
-- Theorems on createFullProblem of server/problem_handler.go: what it leaves in the two tables.
use codera.Base.{
  ℕ, ◌+◌, String, Option, none, some, List, [], ◌∷◌, ◌++◌, ◌≡◌, ◌⊎◌, inl, inr, refl, sym, ◌∙◌,
  arith, length, append-nil, append_assoc,
}
use mathlib.Core.Option as Option
use codera.Domain.{TestCase}
use codera.Repository.Rows.{InsertReply, returned, refused, lost, insert}
use codera.Repository.Problems as Problems
use codera.Repository.TestCases as TestCases
use codera.Repository.TestCases.{IsEarlier, matches}
use codera.Server.Problems.{
  Tables, Response, CreateFullProblemRequest, Shown, answer, numbered, and_then, create_test_cases,
  with_test_cases, with_problem, create_full_problem,
}

-- The test cases of a request as they are to be stored, but for their ids.
abbrev pub number_all : String → ℕ → List TestCase → List TestCase
number_all problem_id i [] = []
number_all problem_id i (tc ∷ tcs) = numbered problem_id i tc ∷ number_all problem_id (i + 1) tcs

-- The first of them, as many as there are ids.
abbrev pub with_ids : List String → List TestCase → List TestCase
with_ids (id ∷ ids) (tc ∷ tcs) = record tc { id = id } ∷ with_ids ids tcs
with_ids _ _ = []

-- The rows `tcs` have been added to `t` up to some place, all of them if the loop has ended.
abbrev pub IsAdded : List TestCase → List TestCase → List TestCase × Option (List TestCase) → Type 0
IsAdded tcs t out =
    (ids : List String) × (out.0 ≡ t ++ with_ids ids tcs)
    × ((rows : List TestCase)
        → out.1 ≡ some rows
        → (rows ≡ with_ids ids tcs) × (length ids ≡ length tcs))

IsAdded-cons :
    (n : TestCase) (id : String) (ns t : List TestCase)
    (out : List TestCase × Option (List TestCase))
    → IsAdded ns (t ++ record n { id = id } ∷ []) out
    → IsAdded (n ∷ ns) t (out.0, Option.map (λ xs. record n { id = id } ∷ xs) out.1)
IsAdded-cons n id ns t (t', none) (ids, e, h) =
    (id ∷ ids, e ∙ append_assoc t _ _, λ rows k. absurd (ground (arith, k)))
IsAdded-cons n id ns t (t', some rows) (ids, e, h) =
    (id ∷ ids, e ∙ append_assoc t _ _, λ rows' k. let (a, b) = h rows refl in (cc, cc))

and_then-IsAdded :
    (rest : List TestCase → List TestCase × Option (List TestCase)) (n : TestCase)
    (ns t : List TestCase) (reply : InsertReply)
    → ((t' : List TestCase) → IsAdded ns t' (rest t'))
    → IsAdded (n ∷ ns) t (and_then rest (TestCases.create reply n t))
unfolding and_then TestCases.create insert
and_then-IsAdded rest n ns t (returned id) h = IsAdded-cons n id ns t (rest _) (h _)
and_then-IsAdded rest n ns t refused h =
    ([], sym (append-nil t), λ rows k. absurd (ground (arith, k)))
and_then-IsAdded rest n ns t (lost id) h = (id ∷ [], refl, λ rows k. absurd (ground (arith, k)))

create_test_cases-IsAdded :
    (replies : ℕ → InsertReply) (problem_id : String) (i : ℕ) (tcs t : List TestCase)
    → IsAdded (number_all problem_id i tcs) t (create_test_cases replies problem_id i tcs t)
unfolding create_test_cases
create_test_cases-IsAdded replies problem_id i [] t = ([], sym (append-nil t), λ rows k. (cc, refl))
create_test_cases-IsAdded replies problem_id i (tc ∷ tcs) t =
    and_then-IsAdded _ (numbered problem_id i tc) _ t (replies i)
      (create_test_cases-IsAdded replies problem_id (i + 1) tcs)

module _ {Float : Type 0} where
  abbrev pub IsError : Response (Shown Float) → Type 0
  IsError r = (r.status_code ≡ 500) × (r.body ≡ none)

  -- What createFullProblem does to the tables: nothing, or it adds the problem and the test cases
  -- of the request, numbered, up to some place; all of them if it answers 201.
  abbrev pub AddsProblem :
      CreateFullProblemRequest Float → Tables Float → Tables Float × Response (Shown Float) → Type 0
  AddsProblem req t (t', r) =
      ((t' ≡ t) × IsError r)
      ⊎ ((id : String) × (ids : List String) × (t'.problems
            ≡ t.problems ++ record req.problem { id = id } ∷ [])
          × (t'.test_cases ≡ t.test_cases ++ with_ids ids (number_all id 0 req.test_cases))
          × (IsError r
              ⊎ ((r.status_code ≡ 201)
                  × (length ids ≡ length (number_all id 0 req.test_cases))
                  × (r.body
                      ≡ some (record {
                        problem = record req.problem { id = id };
                        test_cases = with_ids ids (number_all id 0 req.test_cases);
                      })))))

  added-AddsProblem :
      (req : CreateFullProblemRequest Float) (t : Tables Float) (id : String)
      (out : List TestCase × Option (List TestCase))
      → IsAdded (number_all id 0 req.test_cases) t.test_cases out
      → AddsProblem req t (
        record { problems = t.problems ++ record req.problem { id = id } ∷ []; test_cases = out.0 },
        answer (
            Option.map
              (λ rows. record { problem = record req.problem { id = id }; test_cases = rows })
              out.1),
      )
  unfolding answer
  added-AddsProblem req t id (t', none) (ids, e, h) = inr (id, ids, refl, e, inl (refl, refl))
  added-AddsProblem req t id (t', some rows) (ids, e, h) =
      let (a, b) = h rows refl in inr (id, ids, refl, e, inr (refl, b, rw a refl))

  -- With a body that decodes, whatever the database answers, createFullProblem either changes
  -- nothing and answers 500, or adds the problem of the request under some id and the first of its
  -- test cases, as many as there are ids, with the id of the problem and their sort orders. In the
  -- second case it answers 201 with all of them, or 500, and what it has added stays.
  pub create_full_problem-AddsProblem :
      (reply : InsertReply) (replies : ℕ → InsertReply) (req : CreateFullProblemRequest Float)
      (t : Tables Float)
      → AddsProblem req t (create_full_problem reply replies (some req) t)
  unfolding create_full_problem with_problem with_test_cases Problems.create insert
  create_full_problem-AddsProblem (returned id) replies req t =
      added-AddsProblem req t id _
        (create_test_cases-IsAdded replies id 0 req.test_cases t.test_cases)
  create_full_problem-AddsProblem refused replies req t = inl (refl, (refl, refl))
  create_full_problem-AddsProblem (lost id) replies req t =
      inr (id, [], refl, sym (append-nil t.test_cases), inl (refl, refl))
