-- ===== src/Server/Safe.antt =====
-- Theorems on the server at one request: what it may change.
use codera.Base.{
  String, Bool, true, false, Option, none, some, List, [], ◌∷◌, ◌≡◌, refl, arith, str_eq, eq_iff,
  ◌⊎◌, inl, inr, Bool-cases, if◌then◌else◌,
}
use codera.Queue.{QueueCall}
use codera.Server.Executions.{fails_with, handle_execute}
use codera.Server.Health.{guarded}
use codera.Server.Routes.{
  Route, Found, handled, not_allowed, not_found, found, find_route, first_route, accepts,
  pattern_of, method_matches, path_value, all_routes,
}
use codera.Server.Api.{
  Server, Stores, Body, Outside, Answered, execution, submit, handle, dispatch, answer_request,
  shutdown,
}

first-accepted :
    (f : Route → Bool) (xs : List Route) (x : Route) → first_route f xs ≡ some x → f x ≡ true
first-accepted f [] x h = cc
first-accepted f (y ∷ xs) x h = elim (Bool-cases (f y)) [
  | inl e ↦ let q : some y ≡ some x = rw e at h in let k : y ≡ x = cc in rw (← k) e
  | inr e ↦ first-accepted f xs x (rw e at h)
]

-- A method that is not POST does not match a pattern for POST.
unposted : (m : String) → str_eq m "POST" ≡ false → method_matches (some "POST") m ≡ false
unposted m h = ground (arith, eq_iff m "POST", eq_iff "POST" m)

module _ {Float : Type 0} (o : Outside Float) (s : Server) (path : List String) (b : Body Float)
    (st : Stores Float) where
  -- Nothing is stored or sent.
  abbrev pub IsUnchanged : Stores Float × List QueueCall × Answered Float → Type 0
  IsUnchanged out = (out.0 ≡ st) × (out.1 ≡ [])

  -- One table at most is written: the jobs, or those of the problems, with no message sent, or the
  -- submissions.
  abbrev pub WritesOne : Stores Float × List QueueCall × Answered Float → Type 0
  WritesOne out =
      ((out.0.problems ≡ st.problems) × (out.0.submissions ≡ st.submissions))
      ⊎ ((out.0.executions ≡ st.executions) × (out.0.submissions ≡ st.submissions) × (out.1 ≡ []))
      ⊎ ((out.0.executions ≡ st.executions) × (out.0.problems ≡ st.problems))

  execute-IsUnchanged :
      (id m : String)
      → str_eq m "POST" ≡ false
      → IsUnchanged (handle o s Route.execute id m path b st)
  unfolding handle guarded handle_execute
  execute-IsUnchanged id m h = elim (Bool-cases s.shutting_down) [
    | inl e ↦ rw e (refl, refl)
    | inr e ↦ rw (e, h) (refl, refl)
  ]

  handle-IsUnchanged :
      (x : Route) (id m : String)
      → str_eq m "POST" ≡ false
      → method_matches (pattern_of x).method m ≡ true
      → IsUnchanged (handle o s x id m path b st)
  unfolding handle
  handle-IsUnchanged Route.health_live id m h k = (refl, refl)
  handle-IsUnchanged Route.health_ready id m h k = (refl, refl)
  handle-IsUnchanged Route.version id m h k = (refl, refl)
  handle-IsUnchanged Route.execute id m h k = execute-IsUnchanged id m h
  handle-IsUnchanged Route.get_execution id m h k = (refl, refl)
  handle-IsUnchanged Route.create_problem id m h k = absurd (ground (arith, unposted m h, k))
  handle-IsUnchanged Route.create_full_problem id m h k = absurd (ground (arith, unposted m h, k))
  handle-IsUnchanged Route.create_test_case id m h k = absurd (ground (arith, unposted m h, k))
  handle-IsUnchanged Route.list_problems id m h k = (refl, refl)
  handle-IsUnchanged Route.get_problem id m h k = (refl, refl)
  handle-IsUnchanged Route.create_submission id m h k = absurd (ground (arith, unposted m h, k))
  handle-IsUnchanged Route.get_submission id m h k = (refl, refl)
  handle-IsUnchanged Route.create_run id m h k = absurd (ground (arith, unposted m h, k))
  handle-IsUnchanged Route.get_run id m h k = (refl, refl)
  handle-IsUnchanged Route.analyze_code id m h k = (refl, refl)
  handle-IsUnchanged Route.run_ws id m h k = (refl, refl)
  handle-IsUnchanged Route.submission_ws id m h k = (refl, refl)

  handle-WritesOne : (x : Route) (id m : String) → WritesOne (handle o s x id m path b st)
  unfolding handle submit
  handle-WritesOne Route.health_live id m = inl (refl, refl)
  handle-WritesOne Route.health_ready id m = inl (refl, refl)
  handle-WritesOne Route.version id m = inl (refl, refl)
  handle-WritesOne Route.execute id m = inl (refl, refl)
  handle-WritesOne Route.get_execution id m = inl (refl, refl)
  handle-WritesOne Route.create_problem id m = inr (inl (refl, refl, refl))
  handle-WritesOne Route.create_full_problem id m = inr (inl (refl, refl, refl))
  handle-WritesOne Route.create_test_case id m = inr (inl (refl, refl, refl))
  handle-WritesOne Route.list_problems id m = inl (refl, refl)
  handle-WritesOne Route.get_problem id m = inl (refl, refl)
  handle-WritesOne Route.create_submission id m = inr (inr (refl, refl))
  handle-WritesOne Route.get_submission id m = inl (refl, refl)
  handle-WritesOne Route.create_run id m = inl (refl, refl)
  handle-WritesOne Route.get_run id m = inl (refl, refl)
  handle-WritesOne Route.analyze_code id m = inl (refl, refl)
  handle-WritesOne Route.run_ws id m = inl (refl, refl)
  handle-WritesOne Route.submission_ws id m = inl (refl, refl)

  found-IsUnchanged :
      (m : String) (x : Option Route) (y : Option Route)
      → ((z : Route) → x ≡ some z → accepts m path z ≡ true)
      → str_eq m "POST" ≡ false
      → IsUnchanged (dispatch o s (found path x y) m path b st)
  found-IsUnchanged m none none h k = (refl, refl)
  found-IsUnchanged m none (some y) h k = (refl, refl)
  found-IsUnchanged m (some x) y h k =
      let a : accepts m path x ≡ true = h x refl in
      handle-IsUnchanged x (path_value (pattern_of x).segments path) m k (ground (arith, a))

  dispatch-WritesOne : (m : String) (to : Found) → WritesOne (dispatch o s to m path b st)
  dispatch-WritesOne m (handled x id) = handle-WritesOne x id m
  dispatch-WritesOne m (not_allowed methods) = inl (refl, refl)
  dispatch-WritesOne m not_found = inl (refl, refl)

  -- What a request may change. With any method but POST it changes no table and sends no message,
  -- whatever its path, its body and the answers from outside are; and a POST writes to one table at
  -- most: the jobs, or the tables of problems, without a message, or the submissions.
  pub request_writes :
      (m : String)
      → if str_eq m "POST"
        then WritesOne (answer_request o s m path b st)
        else IsUnchanged (answer_request o s m path b st)
  unfolding answer_request find_route
  request_writes m = elim (Bool-cases (str_eq m "POST")) [
    | inl e ↦ rw e (dispatch-WritesOne m (find_route m path))
    | inr e ↦ rw e (found-IsUnchanged m _ _ (first-accepted (accepts m path) all_routes) e)
  ]

  -- After Shutdown the route of executions refuses every request and changes nothing.
  shutdown_refuses :
      (id m : String)
      → handle o (shutdown s) Route.execute id m path b st ≡ (st, [], execution (fails_with 503))
  unfolding handle shutdown guarded
  shutdown_refuses id m = refl
