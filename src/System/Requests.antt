-- ===== src/System/Requests.antt =====
-- Theorems on the server as a part of the back end: what its requests write to the table
-- `executions`.
use codera.Base.{String, Bool, true, false, Option, none, some, List, inl, inr, Bool-cases, str_eq}
use codera.Domain.{JobRequest}
use codera.Jobs.Table.{Table}
use codera.Server.Executions.{handle_execute}
use codera.Server.Health.{guarded}
use codera.Server.Runs.{create_run, CreateRunRequest, job_request}
use codera.Server.Routes.{Route, Found, handled, not_allowed, not_found, find_route}
use codera.Server.Api.{Server, Stores, Body, Outside, handle, submit, dispatch, answer_request}
use codera.System.Histories.{Writes, nothing, create_execution-Writes}

module _ {Float : Type 0} (o : Outside Float) (s : Server) (b : Body Float) where
  decoded-Writes :
      (is_post : Bool) (d : Option JobRequest) (t : Table)
      → Writes t (handle_execute o.supported o.store_text o.queue_text o.service is_post d t).0
  unfolding handle_execute
  decoded-Writes false d t = nothing t
  decoded-Writes true none t = nothing t
  decoded-Writes true (some req) t = create_execution-Writes o.supported o.service req t

  run-Writes :
      (d : Option CreateRunRequest) (t : Table) → Writes t (create_run o.supported o.service d t).0
  unfolding create_run
  run-Writes none t = nothing t
  run-Writes (some req) t = elim (Bool-cases (o.supported req.language)) [
    | inl e ↦ rw e (create_execution-Writes o.supported o.service (job_request req) t)
    | inr e ↦ rw e (nothing t)
  ]

  guarded-Writes :
      (closing is_post : Bool) (d : Option JobRequest) (t : Table)
      → Writes t
          (guarded closing
            (handle_execute o.supported o.store_text o.queue_text o.service is_post d)
            t).0
  unfolding guarded
  guarded-Writes true is_post d t = nothing t
  guarded-Writes false is_post d t = decoded-Writes is_post d t

  handle-Writes :
      (x : Route) (id m : String) (path : List String) (st : Stores Float)
      → Writes st.executions (handle o s x id m path b st).0.executions
  unfolding handle submit
  handle-Writes Route.execute id m path st =
      guarded-Writes s.shutting_down (str_eq m "POST") b.job st.executions
  handle-Writes Route.create_run id m path st = run-Writes b.run st.executions
  handle-Writes Route.health_live id m path st = nothing st.executions
  handle-Writes Route.health_ready id m path st = nothing st.executions
  handle-Writes Route.version id m path st = nothing st.executions
  handle-Writes Route.get_execution id m path st = nothing st.executions
  handle-Writes Route.create_problem id m path st = nothing st.executions
  handle-Writes Route.create_full_problem id m path st = nothing st.executions
  handle-Writes Route.create_test_case id m path st = nothing st.executions
  handle-Writes Route.list_problems id m path st = nothing st.executions
  handle-Writes Route.get_problem id m path st = nothing st.executions
  handle-Writes Route.create_submission id m path st = nothing st.executions
  handle-Writes Route.get_submission id m path st = nothing st.executions
  handle-Writes Route.get_run id m path st = nothing st.executions
  handle-Writes Route.analyze_code id m path st = nothing st.executions
  handle-Writes Route.run_ws id m path st = nothing st.executions
  handle-Writes Route.submission_ws id m path st = nothing st.executions

  dispatch-Writes :
      (to : Found) (m : String) (path : List String) (st : Stores Float)
      → Writes st.executions (dispatch o s to m path b st).0.executions
  dispatch-Writes (handled x id) m path st = handle-Writes x id m path st
  dispatch-Writes (not_allowed methods) m path st = nothing st.executions
  dispatch-Writes not_found m path st = nothing st.executions

  pub request-Writes :
      (m : String) (path : List String) (st : Stores Float)
      → Writes st.executions (answer_request o s m path b st).0.executions
  unfolding answer_request
  request-Writes m path st = dispatch-Writes (find_route m path) m path st
