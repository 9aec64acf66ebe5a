-- ===== src/Worker/Lifetime.antt =====
-- backend/internal/worker/heartbeat.go: Run, and the updates of the status that Start and Stop of
-- backend/internal/worker/pool.go make, with a theorem on the row of an instance.
use codera.Base.{
  ℕ, String, Bool, true, false, some, List, [], ◌∷◌, ◌++◌, ◌≡◌, ◌≢◌, refl, ◌∙◌, All, Bool-cases,
  inl, inr, if◌then◌else◌, str_eq, eq_refl, eq_iff, ◌⊎◌,
}
use codera.Jobs.Table.{Reply, answered, refused, lost, Moment}
use codera.Worker.Heartbeat.{
  WorkerStatus, active, draining, stopped, WorkerRow, WorkerTable, find_worker, upsert,
  update_status, beat, beaten, apply_worker, WorkerHistory, run_workers,
}
use codera.Worker.Alive.{IsOther, BeatsInTime, beating_worker_keeps_status, stopped_worker_stays}

-- What the `select` of Run chooses, and the writes of others in between.
pub data Pulse : Type 0 where
  others : WorkerHistory → Pulse
  ticked : Moment → Pulse
  done : Pulse

module _ (timeout : ℕ) (id : String) where
  -- Whether Run goes on, and the table.
  unfoldable pub run_heartbeat : Bool → List Pulse → WorkerTable → Bool × WorkerTable
  run_heartbeat up [] t = (up, t)
  run_heartbeat up (others h ∷ ps) t = run_heartbeat up ps (run_workers timeout h t)
  run_heartbeat up (ticked m ∷ ps) t = run_heartbeat up ps (if up then beat m id t else t)
  run_heartbeat up (done ∷ ps) t = run_heartbeat false ps t

  -- The three updates of the status, and what happens after each.
  pub record Life : Type 0 where
    pub starts : Moment
    pub serving : List Pulse
    pub drains : Moment
    pub leaving : List Pulse
    pub stops : Moment
    pub afterwards : List Pulse

  -- The tables before the second update, before the third, and at the end. Start begins Run;
  -- the updates of Stop do not wait for it.
  unfoldable pub live : Life → WorkerTable → WorkerTable × WorkerTable × WorkerTable
  unfolding run_heartbeat
  live l t =
      let (up, served) = run_heartbeat true l.serving (update_status l.starts id active t) in
      let (up', left) = run_heartbeat up l.leaving (update_status l.drains id draining served) in
      let (up'', ended) = run_heartbeat up' l.afterwards (update_status l.stops id stopped left) in
      (served, left, ended)

  -- Whether Run goes on after these, and what they write.
  abbrev pub still_up : Bool → List Pulse → Bool
  still_up up [] = up
  still_up up (others h ∷ ps) = still_up up ps
  still_up up (ticked m ∷ ps) = still_up up ps
  still_up up (done ∷ ps) = still_up false ps

  abbrev pub writes : Bool → List Pulse → WorkerHistory
  writes up [] = []
  writes up (others h ∷ ps) = h ++ writes up ps
  writes up (ticked m ∷ ps) = if up then (m, beaten id) ∷ writes up ps else writes up ps
  writes up (done ∷ ps) = writes false ps

  run_workers-append :
      (h g : WorkerHistory) (t : WorkerTable)
      → run_workers timeout (h ++ g) t ≡ run_workers timeout g (run_workers timeout h t)
  unfolding run_workers
  run_workers-append [] g t = refl
  run_workers-append ((m, o) ∷ h) g t = run_workers-append h g (apply_worker timeout m o t)

  -- Run is the sequence of its writes and those of the others.
  run_heartbeat-writes :
      (up : Bool) (ps : List Pulse) (t : WorkerTable)
      → run_heartbeat up ps t ≡ (still_up up ps, run_workers timeout (writes up ps) t)
  unfolding run_heartbeat run_workers apply_worker
  run_heartbeat-writes up [] t = refl
  run_heartbeat-writes up (others h ∷ ps) t =
      rw (run_workers-append h (writes up ps) t)
        (run_heartbeat-writes up ps (run_workers timeout h t))
  run_heartbeat-writes true (ticked m ∷ ps) t = run_heartbeat-writes true ps (beat m id t)
  run_heartbeat-writes false (ticked m ∷ ps) t = run_heartbeat-writes false ps t
  run_heartbeat-writes up (done ∷ ps) t = run_heartbeat-writes false ps t

  -- The row of the instance just after an update of its status.
  abbrev Updated : ℕ → WorkerStatus → WorkerTable → Type 0
  Updated now s t =
      (r : WorkerRow) × (find_worker id t ≡ some r)
      × (r.worker_id ≡ id)
      × (r.status ≡ s)
      × (r.last_heartbeat_at ≡ now)

  upsert-Updated :
      (now : ℕ) (s : WorkerStatus) (t : WorkerTable) → Updated now s (upsert now id s t)
  unfolding upsert find_worker
  upsert-Updated now s [] = (
    record {
      worker_id = id;
      status = s;
      started_at = now;
      last_heartbeat_at = now;
      updated_at = now;
    },
    rw (eq_refl id) refl,
    refl,
    refl,
    refl,
  )
  upsert-Updated now s (r ∷ t) = elim (Bool-cases (str_eq r.worker_id id)) [
    | inl e ↦ (
      record r { status = s; last_heartbeat_at = now; updated_at = now },
      rw (e, e) refl,
      (eq_iff r.worker_id id).0 e,
      refl,
      refl,
    )
    | inr e ↦
        let (x, found, same, status, last) = upsert-Updated now s t in
        (x, rw (e, e) found, same, status, last)
  ]

  answers : (a : Reply) → a ≢ refused → (a ≡ answered) ⊎ (a ≡ lost)
  answers answered h = inl refl
  answers lost h = inr refl
  answers refused h = absurd (h refl)

  update_status-Updated :
      (m : Moment) (s : WorkerStatus) (t : WorkerTable)
      → m.reply ≢ refused
      → Updated m.now s (update_status m id s t)
  unfolding update_status
  update_status-Updated m s t h = elim (answers m.reply h) [
    | inl e ↦ rw e (upsert-Updated m.now s t)
    | inr e ↦ rw e (upsert-Updated m.now s t)
  ]

  abbrev pub IsListed : WorkerStatus → WorkerTable → Type 0
  IsListed s t = (r : WorkerRow) × (find_worker id t ≡ some r) × (r.status ≡ s)

  kept :
      (m : Moment) (s : WorkerStatus) (h : WorkerHistory) (t : WorkerTable)
      → m.reply ≢ refused
      → BeatsInTime timeout id m.now h
      → IsListed s (run_workers timeout h (update_status m id s t))
  kept m s h t a b =
      let (r, found, same, status, last) = update_status-Updated m s t a in
      let (r', found', status') =
        beating_worker_keeps_status timeout id h (update_status m id s t) r found same
          (rw last b) in
      (r', found', status' ∙ status)

  stopped_for_good :
      (m : Moment) (h : WorkerHistory) (t : WorkerTable)
      → m.reply ≢ refused
      → All (λ o. IsOther timeout id o.1) h
      → IsListed stopped (run_workers timeout h (update_status m id stopped t))
  stopped_for_good m h t a b =
      let (r, found, same, status, last) = update_status-Updated m stopped t a in
      stopped_worker_stays timeout id h (update_status m id stopped t) r found status b

  -- An instance is listed as it is. If its three updates of the status are carried out, nobody
  -- else updates it, and its heartbeats, among which an update counts, are in time at every sweep,
  -- then it is listed as active when Stop begins, as draining when Stop has waited for the
  -- workers, and at the end as stopped, whatever heartbeats and sweeps have still come then.
  pub live-IsListed :
      (l : Life) (t : WorkerTable)
      → l.starts.reply ≢ refused
      → BeatsInTime timeout id l.starts.now (writes true l.serving)
      → l.drains.reply ≢ refused
      → BeatsInTime timeout id l.drains.now (writes (still_up true l.serving) l.leaving)
      → l.stops.reply ≢ refused
      → All
          (λ o. IsOther timeout id o.1)
          (writes (still_up (still_up true l.serving) l.leaving) l.afterwards)
      → IsListed active (live l t).0
        × IsListed draining (live l t).1
        × IsListed stopped (live l t).2
  unfolding live
  live-IsListed l t a b a' b' a'' b'' =
      let start = update_status l.starts id active t in
      let served = run_workers timeout (writes true l.serving) start in
      let up = still_up true l.serving in
      let drain = update_status l.drains id draining served in
      let gone = run_workers timeout (writes up l.leaving) drain in
      let up' = still_up up l.leaving in
      let stop = update_status l.stops id stopped gone in
      rw
        (
          run_heartbeat-writes true l.serving start,
          run_heartbeat-writes up l.leaving drain,
          run_heartbeat-writes up' l.afterwards stop,
        )
        (
          kept l.starts active (writes true l.serving) t a b,
          kept l.drains draining (writes up l.leaving) served a' b',
          stopped_for_good l.stops (writes up' l.afterwards) gone a'' b'',
        )
