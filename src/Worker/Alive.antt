-- ===== src/Worker/Alive.antt =====
-- Theorems on the table `workers`: heartbeats and sweeps.
use codera.Base.{
  ℕ, ◌+◌, ◌≤◌, String, Bool, false, none, some, [], ◌∷◌, ◌≡◌, ◌≢◌, refl, arith, ◌∙◌, if◌then◌else◌,
  str_eq, eq_iff, All, Bool-cases, inl, inr,
}
use codera.Jobs.Table.{Reply, answered, refused, lost, Moment}
use codera.Worker.Heartbeat.{
  WorkerStatus, stopped, WorkerRow, WorkerTable, find_worker, carried, upsert, update_status,
  update_workers, beat, is_stale, mark_stale_workers, WorkerOperation, updated, beaten, swept,
  apply_worker, WorkerHistory, run_workers,
}

find-update_workers :
    (p : WorkerRow → Bool) (f : WorkerRow → WorkerRow)
    (same : (r : WorkerRow) → (f r).worker_id ≡ r.worker_id) (id : String) (t : WorkerTable)
    → find_worker id (update_workers p f t)
      ≡ elim (find_worker id t) [ none ↦ none | some r ↦ some (if p r then f r else r) ]
unfolding find_worker update_workers
find-update_workers p f same id [] = refl
find-update_workers p f same id (r ∷ t) = ground (arith, same r, find-update_workers p f same id t)

find-upsert :
    (now : ℕ) (id w : String) (status : WorkerStatus) (t : WorkerTable)
    → w ≢ id
    → find_worker id (upsert now w status t) ≡ find_worker id t
unfolding find_worker upsert
find-upsert now id w status [] h = ground (arith, eq_iff w id)
find-upsert now id w status (r ∷ t) h = ground (
  arith,
  eq_iff w id,
  eq_iff r.worker_id id,
  eq_iff r.worker_id w,
  find-upsert now id w status t h,
)

abbrev left : Reply → WorkerRow → WorkerRow → WorkerRow
left refused r r' = r
left answered r r' = r'
left lost r r' = r'

find-carried :
    (a : Reply) (id : String) (t t' : WorkerTable) (r r' : WorkerRow)
    → find_worker id t ≡ some r
    → find_worker id t' ≡ some r'
    → find_worker id (carried a t t') ≡ some (left a r r')
find-carried refused id t t' r r' e e' = e
find-carried answered id t t' r r' e e' = e'
find-carried lost id t t' r r' e e' = e'

-- What an operation makes of the row of worker `id`, if it is not an update of its status.
module _ (timeout : ℕ) (id : String) where
  abbrev row_after : Moment → WorkerOperation → WorkerRow → WorkerRow
  row_after m (updated w status) r = r
  row_after m (beaten w) r =
      if str_eq r.worker_id w then record r { last_heartbeat_at = m.now; updated_at = m.now } else r
  row_after m swept r = if is_stale timeout m.now r then record r { status = stopped } else r

  abbrev pub IsOther : WorkerOperation → Type 0
  IsOther (updated w status) = w ≢ id
  IsOther (beaten w) = Unit
  IsOther swept = Unit

  find-apply :
      (m : Moment) (o : WorkerOperation) (t : WorkerTable) (r : WorkerRow)
      → IsOther o
      → find_worker id t ≡ some r
      → find_worker id (apply_worker timeout m o t) ≡ some (left m.reply r (row_after m o r))
  unfolding apply_worker update_status beat mark_stale_workers
  find-apply m (updated w status) t r h e =
      find-carried m.reply id t _ r r e (find-upsert m.now id w status t h ∙ e)
  find-apply m (beaten w) t r h e =
      find-carried m.reply id t _ r _ e (find-update_workers _ _ (λ x. refl) id t ∙ rw e)
  find-apply m swept t r h e =
      find-carried m.reply id t _ r _ e (find-update_workers _ _ (λ x. refl) id t ∙ rw e)

  stays :
      (m : Moment) (o : WorkerOperation) (r : WorkerRow)
      → r.status ≡ stopped
      → (left m.reply r (row_after m o r)).status ≡ stopped
  unfolding is_stale
  stays m (updated w status) r i = ground arith
  stays m (beaten w) r i = ground arith
  stays m swept r i = ground arith

  -- The worker beats often enough: at each sweep its last heartbeat is not older than `timeout`.
  abbrev pub BeatsInTime : ℕ → WorkerHistory → Type 0
  BeatsInTime last [] = Unit
  BeatsInTime last ((m, updated w status) ∷ h) = (w ≢ id) × BeatsInTime last h
  BeatsInTime last ((m, swept) ∷ h) = (m.now ≤ last + timeout) × BeatsInTime last h
  BeatsInTime last ((m, beaten w) ∷ h) =
      BeatsInTime (if str_eq id w then elim m.reply [ refused ↦ last | _ ↦ m.now ] else last) h

  -- What is needed of the row for the rest of a history.
  abbrev StillInTime : WorkerOperation → WorkerRow → WorkerRow → WorkerHistory → Type 0
  StillInTime o r r' h =
      IsOther o × (r'.worker_id ≡ id) × (r'.status ≡ r.status) × BeatsInTime r'.last_heartbeat_at h

  beat_hit :
      (a : Reply) (now : ℕ) (w : String) (h : WorkerHistory) (r : WorkerRow)
      → r.worker_id ≡ id
      → BeatsInTime (elim a [ refused ↦ r.last_heartbeat_at | _ ↦ now ]) h
      → StillInTime
          (beaten w)
          r
          (left a r (record r { last_heartbeat_at = now; updated_at = now }))
          h
  beat_hit answered now w h r i b = (tt, i, refl, b)
  beat_hit refused now w h r i b = (tt, i, refl, b)
  beat_hit lost now w h r i b = (tt, i, refl, b)

  untouched :
      (a : Reply) (o : WorkerOperation) (h : WorkerHistory) (r : WorkerRow)
      → IsOther o
      → r.worker_id ≡ id
      → BeatsInTime r.last_heartbeat_at h
      → StillInTime o r (left a r r) h
  untouched answered o h r n i b = (n, i, refl, b)
  untouched refused o h r n i b = (n, i, refl, b)
  untouched lost o h r n i b = (n, i, refl, b)

  beat_in_time :
      (m : Moment) (w : String) (h : WorkerHistory) (r : WorkerRow)
      → r.worker_id ≡ id
      → BeatsInTime r.last_heartbeat_at ((m, beaten w) ∷ h)
      → StillInTime (beaten w) r (left m.reply r (row_after m (beaten w) r)) h
  beat_in_time m w h r i b =
      let same : str_eq r.worker_id w ≡ str_eq id w = rw i in
      elim (Bool-cases (str_eq id w)) [
        | inl e ↦ rw (same ∙ e) (beat_hit m.reply m.now w h r i (rw e at b))
        | inr e ↦ rw (same ∙ e) (untouched m.reply (beaten w) h r tt i (rw e at b))
      ]

  fresh :
      (m : Moment) (r : WorkerRow)
      → m.now ≤ r.last_heartbeat_at + timeout
      → is_stale timeout m.now r ≡ false
  unfolding is_stale
  fresh m r h = ground arith

  in_time :
      (m : Moment) (o : WorkerOperation) (h : WorkerHistory) (r : WorkerRow)
      → r.worker_id ≡ id
      → BeatsInTime r.last_heartbeat_at ((m, o) ∷ h)
      → StillInTime o r (left m.reply r (row_after m o r)) h
  in_time m (updated w status) h r i (n, b) = untouched m.reply (updated w status) h r n i b
  in_time m (beaten w) h r i b = beat_in_time m w h r i b
  in_time m swept h r i (n, b) = rw (fresh m r n) (untouched m.reply swept h r tt i b)

  -- A worker whose last heartbeat that was carried out is not too old at any sweep keeps its
  -- status, under any heartbeats and sweeps and any updates of other workers.
  pub beating_worker_keeps_status :
      (h : WorkerHistory) (t : WorkerTable) (r : WorkerRow)
      → find_worker id t ≡ some r
      → r.worker_id ≡ id
      → BeatsInTime r.last_heartbeat_at h
      → (r' : WorkerRow) × (find_worker id (run_workers timeout h t) ≡ some r')
        × (r'.status ≡ r.status)
  unfolding run_workers
  beating_worker_keeps_status [] t r e i b = (r, e, refl)
  beating_worker_keeps_status ((m, o) ∷ h) t r e i b =
      let (other, i', same, b') = in_time m o h r i b in
      let (r', e', q) =
        beating_worker_keeps_status h (apply_worker timeout m o t)
          (left m.reply r (row_after m o r)) (find-apply m o t r other e) i' b' in
      (r', e', q ∙ same)

  -- A worker that is stopped stays so under any heartbeats, its own among them, any sweeps and any
  -- updates of other workers.
  pub stopped_worker_stays :
      (h : WorkerHistory) (t : WorkerTable) (r : WorkerRow)
      → find_worker id t ≡ some r
      → r.status ≡ stopped
      → All (λ o. IsOther o.1) h
      → (r' : WorkerRow) × (find_worker id (run_workers timeout h t) ≡ some r')
        × (r'.status ≡ stopped)
  unfolding run_workers
  stopped_worker_stays [] t r e i b = (r, e, i)
  stopped_worker_stays ((m, o) ∷ h) t r e i (b, bs) =
      stopped_worker_stays h (apply_worker timeout m o t) (left m.reply r (row_after m o r))
        (find-apply m o t r b e) (stays m o r i) bs
