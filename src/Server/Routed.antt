-- ===== src/Server/Routed.antt =====
-- Theorems on the routes of server.New: which handler a request gets to.
use codera.Base.{
  String, Bool, true, false, not, ◌&&◌, Option, none, some, List, [], ◌∷◌, ◌≡◌, str_eq, All,
  if◌then◌else◌,
}
use codera.Middleware.{Request, Written, Handler, is_websocket, with_cors}
use codera.Middleware.Chained.{IsServed, IsPreflight}
use codera.Server.Routes.{
  Segment, literal, id_wildcard, rest, Route, all_routes, pattern_of, method_matches, path_value,
  fits, first_route, Found, handled, not_allowed, not_found, allow, answer_found, serve_mux, serve,
}

-- Whether some path may fit both.
abbrev may_meet : List Segment → List Segment → Bool
may_meet [] [] = true
may_meet [] (y ∷ ys) = false
may_meet (x ∷ xs) [] = false
may_meet (literal a ∷ xs) (literal b ∷ ys) = str_eq a b && may_meet xs ys
may_meet (literal a ∷ xs) (id_wildcard ∷ ys) = may_meet xs ys
may_meet (id_wildcard ∷ xs) (literal b ∷ ys) = may_meet xs ys
may_meet (id_wildcard ∷ xs) (id_wildcard ∷ ys) = may_meet xs ys
may_meet (rest ∷ xs) (y ∷ ys) = true
may_meet (literal a ∷ xs) (rest ∷ ys) = true
may_meet (id_wildcard ∷ xs) (rest ∷ ys) = true

-- No pattern of the list may meet the one of the route.
abbrev stands_alone : Route → List Route → Bool
stands_alone x [] = true
stands_alone x (y ∷ ys) =
    not (may_meet (pattern_of x).segments (pattern_of y).segments) && stands_alone x ys

abbrev apart : List Route → Bool
apart [] = true
apart (x ∷ xs) = stands_alone x xs && apart xs

module _ (path : List String) where
  module _ (f : Route → Bool) (within : (x : Route) → f x ≡ true → fits path x ≡ true) where
    -- What the first route is that the test accepts, if the path fits this one.
    abbrev Decides : List Route → Route → Type 0
    Decides xs x = fits path x ≡ true → first_route f xs ≡ (if f x then some x else none)

-- The route that a path gets to: the one whose pattern it fits, or none if it fits none.
abbrev pub Reaches : List String → Option Route → Type 0
Reaches path none = All (λ x. fits path x ≡ false) all_routes
Reaches path (some x) = fits path x ≡ true

-- What the mux makes of a request whose path gets there.
abbrev pub expected : String → List String → Option Route → Found
expected m path none = not_found
expected m path (some x) =
    if method_matches (pattern_of x).method m
    then handled x (path_value (pattern_of x).segments path)
    else not_allowed (allow (pattern_of x).method)

abbrev pub is_preflight : Request → Bool
is_preflight r = not (is_websocket r) && str_eq r.method "OPTIONS"

-- What CORS writes.
abbrev pub cors_written : Request → Written → Written
cors_written r w = if is_websocket r then w else with_cors w

module _ (fresh : String) (handle : Route → String → Handler) (path : List String) (r : Request)
    (w : Written) where
  -- The answer of the server is that of the middleware around the answer to what is found.
  abbrev pub IsRouted : Found → Type 0
  IsRouted to =
      IsServed fresh (answer_found handle to) r w (cors_written r w) (serve fresh handle path r w)

  abbrev ServedFrom : Written → Type 0
  ServedFrom w' = IsServed fresh (serve_mux handle path) r w w' (serve fresh handle path r w)

  -- A preflight is answered, and any other request gets to what is found.
  abbrev pub IsAnswered : Found → Type 0
  IsAnswered to =
      if is_preflight r
      then IsPreflight fresh (serve_mux handle path) r w (serve fresh handle path r w)
      else IsRouted to
