-- ===== src/Middleware/Chained.antt =====
-- Theorems on the middleware of platform/http as server.New puts it together.
use codera.Base.{
  String, true, false, some, [], ◌∷◌, ◌++◌, ◌≡◌, refl, sym, subst, arith, str_eq, Bool-cases, inl,
  inr, if◌then◌else◌,
}
use codera.Middleware.{
  Request, Written, Line, Served, Handler, set_header, write_header, is_websocket, with_cors, cors,
  recover_panic, request_id, request_logger, status_or_ok, chain, server_handler,
}

module _ (fresh : String) (mux : Handler) (r : Request) (w : Written) where
  -- The id of a request: its own, or a new one.
  abbrev pub id_of : String
  id_of = if str_eq r.x_request_id "" then fresh else r.x_request_id

  -- What the routes do with the request, which carries the id, after the headers.
  abbrev pub inner : Written → Served
  inner w' = mux (record r { request_id = some id_of }) (set_header "X-Request-ID" id_of w')

  abbrev pub line : Served → Line
  line s = record { request_id = id_of; status = status_or_ok s.written.recorded }

  -- The answer to a request that gets to the routes and on which they do not panic: theirs, and a
  -- line in the log unless it asks for a web socket.
  abbrev pub IsLogged : Served → Served → Type 0
  IsLogged s out = out ≡ (if is_websocket r then s else record s { log = s.log ++ line s ∷ [] })

  -- The answer if they panic.
  abbrev pub IsRecovered : Served → Served → Type 0
  IsRecovered s out = out ≡ record s {
    written = write_header 500 (set_header "Connection" "close" s.written);
    panics = false;
  }

  -- The three inner layers, from what the outer one has written.
  logged :
      (w' : Written)
      → (inner w').panics ≡ false
      → IsLogged (inner w') (recover_panic (request_id fresh (request_logger mux)) r w')
  unfolding recover_panic request_id request_logger
  logged w' h = elim (Bool-cases (is_websocket r)) [
    | inl e ↦ rw (e, h) refl
    | inr e ↦ rw (e, h) refl
  ]

  recovered :
      (w' : Written)
      → (inner w').panics ≡ true
      → IsRecovered (inner w') (recover_panic (request_id fresh (request_logger mux)) r w')
  unfolding recover_panic request_id request_logger
  recovered w' h = elim (Bool-cases (is_websocket r)) [
    | inl e ↦ rw (e, h) refl
    | inr e ↦ rw (e, h) refl
  ]

  never_panics :
      (w' : Written)
      → (inner w').panics ≡ false
      → (recover_panic (request_id fresh (request_logger mux)) r w').panics ≡ false
  unfolding recover_panic request_id request_logger
  never_panics w' h = elim (Bool-cases (is_websocket r)) [
    | inl e ↦ rw (e, h) refl
    | inr e ↦ rw (e, h) refl
  ]

  -- What a client is answered, and what is logged.
  abbrev pub IsServed : Written → Served → Type 0
  IsServed w' out =
      (out.panics ≡ false)
      × ((inner w').panics ≡ false → IsLogged (inner w') out)
      × ((inner w').panics ≡ true → IsRecovered (inner w') out)

  inner-IsServed :
      (w' : Written) → IsServed w' (recover_panic (request_id fresh (request_logger mux)) r w')
  inner-IsServed w' = elim (Bool-cases (inner w').panics) [
    | inl e ↦ (rw (recovered w' e) refl, λ k. absurd (ground (arith, e, k)), λ k. recovered w' e)
    | inr e ↦ (never_panics w' e, λ k. logged w' e, λ k. absurd (ground (arith, e, k)))
  ]

  -- The answer to a preflight request.
  abbrev pub IsPreflight : Served → Type 0
  IsPreflight out =
      out ≡ record { written = write_header 204 (with_cors w); panics = false; log = [] }

  -- The whole stack lets no panic through. An OPTIONS request that asks for no web socket is
  -- answered 204 with the four headers and gets no further. Any other gets to the routes with its
  -- id, or a new one if it has none, in its context and in the header of the answer; one line with
  -- the id and the status code is logged, unless it asks for a web socket; and if the routes
  -- panic, the answer is 500, unless a code had been written, and no line is logged.
  pub server_handler-IsServed :
      (is_websocket r ≡ true → IsServed w (server_handler fresh mux r w))
      × (is_websocket r ≡ false
          → str_eq r.method "OPTIONS" ≡ true
          → IsPreflight (server_handler fresh mux r w))
      × (is_websocket r ≡ false
          → str_eq r.method "OPTIONS" ≡ false
          → IsServed (with_cors w) (server_handler fresh mux r w))
  unfolding server_handler chain cors
  server_handler-IsServed =
      let stack : Handler = recover_panic (request_id fresh (request_logger mux)) in
      (
        λ e.
            let q : server_handler fresh mux r w ≡ stack r w = rw e refl in
            subst (IsServed w) (sym q) (inner-IsServed w),
        λ e o. rw (e, o) refl,
        λ e o.
            let q : server_handler fresh mux r w ≡ stack r (with_cors w) = rw (e, o) refl in
            subst (IsServed (with_cors w)) (sym q) (inner-IsServed (with_cors w)),
      )
