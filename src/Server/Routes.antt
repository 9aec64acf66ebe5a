-- ===== src/Server/Routes.antt =====
-- backend/internal/server: the routes that New and the four RegisterRoutes register, and what
-- http.ServeMux does with them. A path is a list of segments, the last one empty if the path ends
-- in a slash. Paths that the mux cleans by a redirect are not modelled.
use codera.Base.{
  String, Bool, true, false, not, ◌&&◌, ◌||◌, Option, none, some, List, [], ◌∷◌, ◌++◌, str_eq,
  if◌then◌else◌,
}
use codera.Middleware.{Written, Served, Handler, set_header, write_header, server_handler}

-- `rest` is the slash at the end of a pattern, which stands for all that follows.
pub data Segment : Type 0 where
  literal : String → Segment
  id_wildcard rest : Segment

pub record Pattern : Type 0 where
  pub method : Option String
  pub segments : List Segment

-- The handlers, in the order in which they are registered.
pub data Route : Type 0 where
  health_live health_ready version execute get_execution : Route
  create_problem create_full_problem create_test_case list_problems get_problem : Route
  create_submission get_submission create_run get_run analyze_code run_ws submission_ws : Route

-- The RegisterRoutes of the four handlers.
abbrev pub problem_routes : List Route
problem_routes =
    create_problem ∷ create_full_problem ∷ create_test_case ∷ list_problems ∷ get_problem ∷ []

abbrev pub submission_routes : List Route
submission_routes = create_submission ∷ get_submission ∷ []

abbrev pub run_routes : List Route
run_routes = create_run ∷ get_run ∷ analyze_code ∷ []

abbrev pub ws_routes : List Route
ws_routes = run_ws ∷ submission_ws ∷ []

abbrev pub all_routes : List Route
all_routes =
    health_live ∷ health_ready ∷ version ∷ execute ∷ get_execution ∷ problem_routes
    ++ submission_routes
    ++ run_routes
    ++ ws_routes

abbrev any_method : List Segment → Pattern
any_method ss = record { method = none; segments = ss }

abbrev get : List Segment → Pattern
get ss = record { method = some "GET"; segments = ss }

abbrev post : List Segment → Pattern
post ss = record { method = some "POST"; segments = ss }

abbrev pub pattern_of : Route → Pattern
pattern_of health_live = any_method (literal "health" ∷ literal "live" ∷ [])
pattern_of health_ready = any_method (literal "health" ∷ literal "ready" ∷ [])
pattern_of version = any_method (literal "api" ∷ literal "v1" ∷ literal "version" ∷ [])
pattern_of execute = any_method (literal "api" ∷ literal "v1" ∷ literal "executions" ∷ [])
pattern_of get_execution =
    any_method (literal "api" ∷ literal "v1" ∷ literal "executions" ∷ rest ∷ [])
pattern_of create_problem = post (literal "admin" ∷ literal "problems" ∷ [])
pattern_of create_full_problem = post (literal "admin" ∷ literal "problems" ∷ literal "full" ∷ [])
pattern_of create_test_case =
    post (literal "admin" ∷ literal "problems" ∷ id_wildcard ∷ literal "test-cases" ∷ [])
pattern_of list_problems = get (literal "problems" ∷ [])
pattern_of get_problem = get (literal "problems" ∷ id_wildcard ∷ [])
pattern_of create_submission = post (literal "problems" ∷ id_wildcard ∷ literal "submissions" ∷ [])
pattern_of get_submission = get (literal "submissions" ∷ id_wildcard ∷ [])
pattern_of create_run = post (literal "run" ∷ [])
pattern_of get_run = get (literal "run" ∷ id_wildcard ∷ [])
pattern_of analyze_code = post (literal "analyze" ∷ [])
pattern_of run_ws = get (literal "ws" ∷ literal "run" ∷ id_wildcard ∷ [])
pattern_of submission_ws = get (literal "ws" ∷ literal "submissions" ∷ id_wildcard ∷ [])

-- A wildcard takes one segment, which is not empty.
abbrev pub segments_match : List Segment → List String → Bool
segments_match [] [] = true
segments_match [] (x ∷ xs) = false
segments_match (s ∷ ss) [] = false
segments_match (literal a ∷ ss) (x ∷ xs) = str_eq a x && segments_match ss xs
segments_match (id_wildcard ∷ ss) (x ∷ xs) = not (str_eq x "") && segments_match ss xs
segments_match (rest ∷ ss) (x ∷ xs) = true

-- A pattern for GET takes HEAD too.
abbrev pub method_matches : Option String → String → Bool
method_matches none m = true
method_matches (some a) m = str_eq a m || (str_eq a "GET" && str_eq m "HEAD")

-- r.PathValue("id")
abbrev pub path_value : List Segment → List String → String
path_value (literal a ∷ ss) (x ∷ xs) = path_value ss xs
path_value (id_wildcard ∷ ss) (x ∷ xs) = x
path_value _ _ = ""

abbrev pub fits : List String → Route → Bool
fits path x = segments_match (pattern_of x).segments path

abbrev pub accepts : String → List String → Route → Bool
accepts m path x = method_matches (pattern_of x).method m && fits path x

abbrev pub first_route : (Route → Bool) → List Route → Option Route
first_route f [] = none
first_route f (x ∷ xs) = if f x then some x else first_route f xs

pub data Found : Type 0 where
  handled : Route → String → Found
  not_allowed : String → Found
  not_found : Found

-- The header Allow.
abbrev pub allow : Option String → String
allow none = ""
allow (some m) = if str_eq m "GET" then "GET, HEAD" else m

-- From the first route that accepts the request, and the first that its path fits.
abbrev pub found : List String → Option Route → Option Route → Found
found path (some x) by_path = handled x (path_value (pattern_of x).segments path)
found path none (some x) = not_allowed (allow (pattern_of x).method)
found path none none = not_found

-- The mux takes the most specific pattern, which is the first one where no two fit one path; then
-- one pattern decides Allow too.
unfoldable pub find_route : String → List String → Found
find_route m path =
    found path (first_route (accepts m path) all_routes) (first_route (fits path) all_routes)

-- http.Error with this status code.
abbrev pub error_handler : Written → Served
error_handler w = record { written = w; panics = false; log = [] }

abbrev pub plain_text : Written → Written
plain_text w =
    set_header "X-Content-Type-Options" "nosniff"
      (set_header "Content-Type" "text/plain; charset=utf-8" w)

unfoldable pub answer_found : (Route → String → Handler) → Found → Handler
answer_found handle (handled x id) r w = handle x id r w
answer_found handle (not_allowed methods) r w =
    error_handler (write_header 405 (plain_text (set_header "Allow" methods w)))
answer_found handle not_found r w = error_handler (write_header 404 (plain_text w))

-- The mux of New, with what its handlers do.
unfoldable pub serve_mux : (Route → String → Handler) → List String → Handler
serve_mux handle path r w = answer_found handle (find_route r.method path) r w

-- The server of New at one request.
unfoldable pub serve : String → (Route → String → Handler) → List String → Handler
serve fresh handle path = server_handler fresh (serve_mux handle path)
