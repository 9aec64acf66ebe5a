-- ===== src/Server/Followed.antt =====
-- Theorems on a session of server/ws_handler.go that follows a submission while Judge works on it.
use codera.Base.{String, true, false, some, List, [], ◌∷◌, ◌≡◌, ◌≢◌, refl, ◌∙◌, arith, ap, str_eq}
use codera.Domain.{Submission, SubmissionStatus, Verdict}
use codera.Repository.Rows.{found}
use codera.Language.Registry.{MapRegistry}
use codera.Judge.Comparator.{Floats, ComparatorRegistry}
use codera.Judge.Loop.{Host, JudgeEnd}
use codera.Judge.Engine.{judge}
use codera.Judge.Finalized.{Finalizes, judge-Finalizes}
use codera.Sandbox.Container.{ResourceCall}
use codera.Server.Sessions.{
  Event, Frame, returned, Session, served, is_final_submission, handle_submission_ws,
}
use codera.Server.Streams.{
  states, heard, until_final, has_final, closes, IsStream, handle_ws-IsStream,
}

is_final-completed :
    (s : Submission) → s.status ≡ SubmissionStatus.completed → is_final_submission s ≡ true
is_final-completed s e = rw e refl

is_final-running :
    (s : Submission) → s.status ≡ SubmissionStatus.running → is_final_submission s ≡ false
is_final-running s e = rw e refl

two_updates :
    (s first last : Submission)
    → is_final_submission s ≡ false
    → is_final_submission first ≡ false
    → until_final is_final_submission (s ∷ first ∷ last ∷ []) ≡ s ∷ first ∷ last ∷ []
two_updates s first last n r = ground (arith, n, r)

-- A session that shows a whole judging, from the state at its start.
abbrev pub IsFollowed : Submission → Session Submission → Type 0
IsFollowed s out =
    (fs : List (Frame Submission)) × (first : Submission) × (last : Submission) × (out
      ≡ served fs returned)
    × (states is_final_submission fs ≡ s ∷ first ∷ last ∷ [])
    × (first.status ≡ SubmissionStatus.running)
    × ((last.status ≡ SubmissionStatus.completed) × (last.verdict ≢ Verdict.pending))
    × (closes is_final_submission false fs ≡ true)

module _ (f : Floats) (h : Host f.Float) (comparators : ComparatorRegistry)
    (languages : MapRegistry) where
  stream-IsFollowed :
      (s sub : Submission) (es : List (Event Submission)) (out : Session Submission)
      (saved : List Submission) (calls : List ResourceCall) (e : JudgeEnd)
      → is_final_submission s ≡ false
      → heard is_final_submission es ≡ saved
      → Finalizes h.clock sub (saved, calls, e)
      → IsStream is_final_submission s es out
      → IsFollowed s out
  stream-IsFollowed s sub es out saved calls e n q (first, last, q', (_, a), (_, b), w, v, i, g)
        (fs, end, o, t, c, (z, _)) =
      let is_final = is_final_submission in
      let l : heard is_final es ≡ first ∷ last ∷ [] = q ∙ q' in
      let r : is_final first ≡ false = is_final-running first a in
      let r' : is_final last ≡ true = is_final-completed last b in
      let u : until_final is_final (s ∷ heard is_final es) ≡ s ∷ first ∷ last ∷ [] =
        ap (λ ss. until_final is_final (s ∷ ss)) l ∙ two_updates s first last n r in
      let k : has_final is_final (s ∷ heard is_final es) ≡ true =
        ap (λ ss. has_final is_final (s ∷ ss)) l ∙ ground (arith, r') in
      (fs, first, last, o ∙ ap (served fs) (z k), t ∙ u, a, (b, v), c ∙ k)

  -- A client that follows a submission hears its judging: a session that starts from a state that
  -- is not final and, among pings and messages that cannot be decoded, hears just what Judge saves
  -- of a submission that it can read, is sent the state at its start, the submission running, and
  -- the submission completed with a verdict other than PENDING; then the closing frame, and the
  -- handler returns.
  pub judging-IsFollowed :
      (id : String) (s sub : Submission) (es : List (Event Submission))
      → str_eq id "" ≡ false
      → is_final_submission s ≡ false
      → h.submission ≡ some sub
      → heard is_final_submission es ≡ (judge f h comparators languages).0
      → IsFollowed s (handle_submission_ws id true (found s) es)
  unfolding handle_submission_ws
  judging-IsFollowed id s sub es i n r q =
      stream-IsFollowed s sub es _ _ _ _ n q (judge-Finalizes f h comparators languages sub r)
        (handle_ws-IsStream is_final_submission id s es i)
