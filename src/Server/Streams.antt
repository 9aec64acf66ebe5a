-- ===== src/Server/Streams.antt =====
-- Theorems on the sessions of server/ws_handler.go: what a client is sent and when a session ends.
use codera.Base.{
  String, Bool, true, false, not, ◌||◌, none, some, List, [], ◌∷◌, ◌≡◌, refl, arith, str_eq, All,
  Bool-cases, inl, inr, if◌then◌else◌,
}
use codera.Repository.Rows.{found}
use codera.Server.Sessions.{
  Event, message, tick, done, channel_closed, Frame, state, not_found, normal_closure, ping, End,
  returned, waiting, Session, served, listen, after_fetch, handle_ws,
}

module _ {State : Type 0} (is_final : State → Bool) where
  -- The states among the frames.
  abbrev pub states : List (Frame State) → List State
  states [] = []
  states (state s ∷ fs) = s ∷ states fs
  states (not_found ∷ fs) = states fs
  states (normal_closure ∷ fs) = states fs
  states (ping ∷ fs) = states fs

  -- The updates that reach a session before something else ends it.
  abbrev pub heard : List (Event State) → List State
  heard [] = []
  heard (message none ∷ es) = heard es
  heard (message (some s) ∷ es) = s ∷ heard es
  heard (tick true ∷ es) = heard es
  heard (tick false ∷ es) = []
  heard (done ∷ es) = []
  heard (channel_closed ∷ es) = []

  -- Up to the first final one, with it.
  abbrev pub until_final : List State → List State
  until_final [] = []
  until_final (s ∷ ss) = let rest = until_final ss in s ∷ (if is_final s then [] else rest)

  abbrev pub has_final : List State → Bool
  has_final [] = false
  has_final (s ∷ ss) = is_final s || has_final ss

  abbrev pub is_closure : Frame State → Bool
  is_closure normal_closure = true
  is_closure _ = false

  -- Whether the last frame is the closing one, where `b` is the answer for no frame.
  abbrev pub closes : Bool → List (Frame State) → Bool
  closes b [] = b
  closes b (f ∷ fs) = closes (is_closure f) fs

  -- The events that end a session without an update.
  abbrev pub ends : Event State → Bool
  ends (message o) = false
  ends (tick b) = not b
  ends done = true
  ends channel_closed = true

  listen-states : (es : List (Event State)) → states (listen is_final es).0 ≡ until_final (heard es)
  unfolding listen
  listen-states [] = refl
  listen-states (message none ∷ es) = listen-states es
  listen-states (message (some s) ∷ es) = elim (Bool-cases (is_final s)) [
    | inl e ↦ rw e refl
    | inr e ↦ rw (e, listen-states es) refl
  ]
  listen-states (tick false ∷ es) = refl
  listen-states (tick true ∷ es) = listen-states es
  listen-states (done ∷ es) = refl
  listen-states (channel_closed ∷ es) = refl

  listen-closes :
      (es : List (Event State)) → closes false (listen is_final es).0 ≡ has_final (heard es)
  unfolding listen
  listen-closes [] = refl
  listen-closes (message none ∷ es) = listen-closes es
  listen-closes (message (some s) ∷ es) = elim (Bool-cases (is_final s)) [
    | inl e ↦ rw e refl
    | inr e ↦ rw e (listen-closes es)
  ]
  listen-closes (tick false ∷ es) = refl
  listen-closes (tick true ∷ es) = listen-closes es
  listen-closes (done ∷ es) = refl
  listen-closes (channel_closed ∷ es) = refl

  -- How the loop ends, by what it hears.
  abbrev pub EndsBy : Bool → List (Event State) → End → Type 0
  EndsBy b es e =
      (b ≡ true → e ≡ returned) × (b ≡ false → All (λ x. ends x ≡ false) es → e ≡ waiting)

  listen-EndsBy :
      (es : List (Event State)) → EndsBy (has_final (heard es)) es (listen is_final es).1
  unfolding listen
  listen-EndsBy [] = (λ h. ground (arith, h), λ h a. refl)
  listen-EndsBy (message none ∷ es) = let (f, g) = listen-EndsBy es in (f, λ h a. g h a.1)
  listen-EndsBy (message (some s) ∷ es) = elim (Bool-cases (is_final s)) [
    | inl e ↦ rw e (λ h. refl, λ h a. ground (arith, h))
    | inr e ↦ let (f, g) = listen-EndsBy es in rw e (f, λ h a. g h a.1)
  ]
  listen-EndsBy (tick false ∷ es) = (λ h. refl, λ h a. ground (arith, a.0))
  listen-EndsBy (tick true ∷ es) = let (f, g) = listen-EndsBy es in (f, λ h a. g h a.1)
  listen-EndsBy (done ∷ es) = (λ h. refl, λ h a. ground (arith, a.0))
  listen-EndsBy (channel_closed ∷ es) = (λ h. ground (arith, h), λ h a. ground (arith, a.0))

  -- What the session of a client is, from the state `s` at its start.
  abbrev pub IsStream : State → List (Event State) → Session State → Type 0
  IsStream s es out =
      (fs : List (Frame State)) × (e : End) × (out ≡ served fs e)
      × (states fs ≡ until_final (s ∷ heard es))
      × (closes false fs ≡ has_final (s ∷ heard es))
      × EndsBy (has_final (s ∷ heard es)) es e

  -- A client that is upgraded and whose job or submission is found is sent the state at the start
  -- and then each update that can be decoded, in order, up to the first that is final and no
  -- further. The last frame is the closing one exactly if a final state was sent, and then the
  -- handler returns; without a final state, a written ping or an update never ends the session.
  pub handle_ws-IsStream :
      (id : String) (s : State) (es : List (Event State))
      → str_eq id "" ≡ false
      → IsStream s es (handle_ws is_final id true (found s) es)
  unfolding handle_ws after_fetch
  handle_ws-IsStream id s es h = elim (Bool-cases (is_final s)) [
    | inl e ↦
        rw (h, e)
          (
            state s ∷ normal_closure ∷ [],
            returned,
            refl,
            refl,
            refl,
            (λ k. refl, λ k a. ground (arith, k)),
          )
    | inr e ↦
        rw (h, e)
          (
            state s ∷ (listen is_final es).0,
            (listen is_final es).1,
            refl,
            rw (listen-states es) refl,
            listen-closes es,
            listen-EndsBy es,
          )
  ]
