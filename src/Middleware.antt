-- ===== src/Middleware.antt =====
-- backend/internal/platform/http: cors.go and middleware.go. A handler answers a request with the
-- headers and the status code that it sets, or panics; the request id is in the request's context.
pub mod Chained
use codera.Base.{
  ℕ, String, Bool, true, false, Option, none, some, List, [], ◌∷◌, ◌++◌, str_eq, if◌then◌else◌,
}

-- The headers that the middleware reads, the method, and the id in the context.
pub record Request : Type 0 where
  pub method : String
  pub upgrade : String
  pub x_request_id : String
  pub request_id : Option String

-- What is set of the headers, by name and in order, the status code that is sent, if one is
-- written, and the last that is asked for, which the recorder keeps.
pub record Written : Type 0 where
  pub headers : List (String × String)
  pub status : Option ℕ
  pub recorded : Option ℕ

-- One line of the log: the id and the status code.
pub record Line : Type 0 where
  pub request_id : String
  pub status : ℕ

-- What one request leaves: the answer, whether the handler panics, and the lines logged.
pub record Served : Type 0 where
  pub written : Written
  pub panics : Bool
  pub log : List Line

abbrev pub Handler : Type 0
Handler = Request → Written → Served

abbrev pub Middleware : Type 0
Middleware = Handler → Handler

abbrev pub set_header : String → String → Written → Written
set_header key value w = record w { headers = w.headers ++ (key, value) ∷ [] }

-- The first call of WriteHeader decides.
abbrev pub write_header : ℕ → Written → Written
write_header n w = record w {
  status = elim w.status [ none ↦ some n | some k ↦ some k ];
  recorded = some n;
}

abbrev pub is_websocket : Request → Bool
is_websocket r = str_eq r.upgrade "websocket"

abbrev pub with_cors : Written → Written
with_cors w = set_header "Access-Control-Max-Age" "86400" (
    set_header "Access-Control-Allow-Headers" "Content-Type, Authorization" (
      set_header "Access-Control-Allow-Methods" "GET, POST, PUT, DELETE, OPTIONS"
        (set_header "Access-Control-Allow-Origin" "*" w)))

unfoldable pub cors : Middleware
cors next r w =
    if is_websocket r
    then next r w
    else if str_eq r.method "OPTIONS"
    then record { written = write_header 204 (with_cors w); panics = false; log = [] }
    else next r (with_cors w)

-- The answer of a handler that panics is what it wrote before, then the header and 500; the line
-- on the panic is not modelled.
unfoldable pub recover_panic : Middleware
recover_panic next r w =
    let s = next r w in
    if s.panics
    then record s {
      written = write_header 500 (set_header "Connection" "close" s.written);
      panics = false;
    }
    else s

-- `fresh` is generateRequestID().
unfoldable pub request_id : String → Middleware
request_id fresh next r w =
    let id = if str_eq r.x_request_id "" then fresh else r.x_request_id in
    next (record r { request_id = some id }) (set_header "X-Request-ID" id w)

abbrev pub id_or_empty : Option String → String
id_or_empty none = ""
id_or_empty (some id) = id

abbrev pub status_or_ok : Option ℕ → ℕ
status_or_ok none = 200
status_or_ok (some n) = n

-- A panic passes before the line is logged.
unfoldable pub request_logger : Middleware
request_logger next r w =
    let s = next r w in
    if is_websocket r then s else if s.panics then s else record s {
      log =
          s.log
          ++ record {
            request_id = id_or_empty r.request_id;
            status = status_or_ok s.written.recorded;
          }
            ∷ [];
    }

-- The loop from the last to the first: the rest is wrapped first.
unfoldable pub chain : Handler → List Middleware → Handler
chain h [] = h
chain h (m ∷ ms) = m (chain h ms)

-- The handler of server.New.
unfoldable pub server_handler : String → Handler → Handler
server_handler fresh mux = chain mux (cors ∷ recover_panic ∷ request_id fresh ∷ request_logger ∷ [])
