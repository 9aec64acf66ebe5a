-- ===== src/Worker/Renewal.antt =====
-- backend/internal/worker/pool.go: the goroutine of processRun that renews the lease while the
-- program runs, with a theorem on a job that it holds.
use codera.Base.{
  ℕ, String, true, Option, none, some, List, [], ◌∷◌, ◌++◌, ◌≡◌, ◌≢◌, refl, ◌∙◌, eq_refl,
}
use codera.Jobs.Job.{ExecutionJob}
use codera.Jobs.Table.{Table, answered, Moment, find}
use codera.Jobs.Store.{StoreError, renew_lease, can_renew, renew_row}
use codera.Jobs.Cells.{find-id}
use codera.Jobs.History as History
use codera.Jobs.History.{History, update, run, apply, apply_update}
use codera.Worker.Process.{lease_duration}
use codera.Worker.Refined.{run-append}
use codera.Worker.Quiet.{exec-Leaves}
use codera.Worker.Leased.{
  later_end, Spares, end_after, Undisturbed, run-Undisturbed, can_renew-held,
}

-- What the `select` of the goroutine chooses, and the writes of others in between.
pub data Renewal : Type 0 where
  meanwhile : History → Renewal
  ticked : Moment → Renewal
  done : Renewal

-- Whether the goroutine goes on, has seen the context done, or has cancelled the execution.
pub data RenewalEnd : Type 0 where
  renewing returned canceled : RenewalEnd

module _ (id worker : String) where
  abbrev after_renewal : Table × RenewalEnd → Table × Option StoreError → Table × RenewalEnd
  after_renewal rest (t, none) = rest
  after_renewal rest (t, some e) = (t, canceled)

  unfoldable pub keep_renewing : List Renewal → Table → Table × RenewalEnd
  keep_renewing [] t = (t, renewing)
  keep_renewing (meanwhile h ∷ rs) t = keep_renewing rs (run h t)
  keep_renewing (ticked m ∷ rs) t =
      let x = renew_lease m id worker lease_duration t in after_renewal (keep_renewing rs x.0) x
  keep_renewing (done ∷ rs) t = (t, returned)

  -- What is written if every renewal succeeds.
  abbrev pub renewals : List Renewal → History
  renewals [] = []
  renewals (meanwhile h ∷ rs) = h ++ renewals rs
  renewals (ticked m ∷ rs) =
      (m, update (History.renew_lease id worker lease_duration)) ∷ renewals rs
  renewals (done ∷ rs) = []

  abbrev pub Answered : List Renewal → Type 0
  Answered [] = Unit
  Answered (meanwhile h ∷ rs) = Answered rs
  Answered (ticked m ∷ rs) = (m.reply ≡ answered) × Answered rs
  Answered (done ∷ rs) = Unit

  Spares-append :
      (h g : History) (until : ℕ)
      → Spares id worker until (h ++ g)
      → Spares id worker until h × Spares id worker (end_after id worker until h) g
  Spares-append [] g until s = (tt, s)
  Spares-append ((m, o) ∷ h) g until (b, s) =
      let (p, q) = Spares-append h g (later_end id worker until m o) s in ((b, p), q)

  succeeded :
      (rest : Table × RenewalEnd) (x : Table × Option StoreError)
      → x.1 ≡ none
      → after_renewal rest x ≡ rest
  succeeded rest (t, none) h = refl
  succeeded rest (t, some e) h = cc

  module _ (r : ExecutionJob) where
    -- A renewal of a job that the worker holds succeeds.
    renewed :
        (m : Moment) (until : ℕ) (t : Table) (s : ExecutionJob)
        → m.reply ≡ answered
        → find id t ≡ some s
        → Undisturbed worker until r s
        → (renew_lease m id worker lease_duration t).1 ≡ none
    unfolding renew_lease
    renewed m until t s a e u =
        let held : can_renew id worker s ≡ true =
          can_renew-held id worker r until id worker s (find-id id t s e) u
          ∙ rw (eq_refl id, eq_refl worker) refl in
        rw a
          (exec-Leaves (can_renew id worker) (renew_row m.now lease_duration)
            (unfold renew_row in λ x. refl) id t s e held).0

    abbrev Goes : List Renewal → Table → Type 0
    Goes rs t = ((keep_renewing rs t).0 ≡ run (renewals rs) t) × ((keep_renewing rs t).1 ≢ canceled)

    keep_renewing-Goes :
        (rs : List Renewal) (until : ℕ) (t : Table) (s : ExecutionJob)
        → find id t ≡ some s
        → Undisturbed worker until r s
        → Answered rs
        → Spares id worker until (renewals rs)
        → Goes rs t
    unfolding keep_renewing run apply apply_update
    keep_renewing-Goes [] until t s e u a b = (refl, λ q. cc)
    keep_renewing-Goes (done ∷ rs) until t s e u a b = (refl, λ q. cc)
    keep_renewing-Goes (meanwhile h ∷ rs) until t s e u a b =
        let (p, q) = Spares-append h (renewals rs) until b in
        let (s', e', u') = run-Undisturbed id worker r until h t s p e u in
        rw run-append (keep_renewing-Goes rs (end_after id worker until h) (run h t) s' e' u' a q)
    keep_renewing-Goes (ticked m ∷ rs) until t s e u (answer, a) (b, c) =
        let op = update (History.renew_lease id worker lease_duration) in
        let x = renew_lease m id worker lease_duration t in
        let (s', e', u') = run-Undisturbed id worker r until ((m, op) ∷ []) t s (b, tt) e u in
        rw (succeeded (keep_renewing rs x.0) x (renewed m until t s answer e u))
          (keep_renewing-Goes rs (later_end id worker until m op) x.0 s' e' u' a c)

    -- The goroutine keeps the lease. If the worker holds the job, each renewal is answered, no sweep
    -- comes after the end that the last renewal has set, and nobody else writes in the worker's
    -- name, then no renewal fails and the execution is not canceled, and the worker holds the job
    -- in the end, with its status, program and attempts, until 30 seconds after the last renewal,
    -- however long the program runs.
    pub renewals_keep_lease :
        (rs : List Renewal) (until : ℕ) (t : Table)
        → find id t ≡ some r
        → Undisturbed worker until r r
        → Answered rs
        → Spares id worker until (renewals rs)
        → ((keep_renewing rs t).1 ≢ canceled)
          × ((s : ExecutionJob) × (find id (keep_renewing rs t).0 ≡ some s)
              × Undisturbed worker (end_after id worker until (renewals rs)) r s)
    renewals_keep_lease rs until t e u a b =
        let (left, goes) = keep_renewing-Goes rs until t r e u a b in
        (goes, rw left (run-Undisturbed id worker r until (renewals rs) t r b e u))
