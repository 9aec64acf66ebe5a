-- ===== src/Worker/Leased.antt =====
-- Theorems on processRun of worker/pool.go: what others cannot do to a job under its lease.
use codera.Base.{
  [], ◌∷◌, ◌+◌, refl, eq_refl, Bool, Bytes, List, ℕ, ◌≤◌, String, true, false, some, ◌≡◌, ◌≢◌,
  arith, eq_iff, str_eq, ◌&&◌, if◌then◌else◌,
}
use codera.Jobs.Job.{is_claimed, is_running, is_queued, ExecutionJob, is_leased}
use codera.Worker.Process.{Surroundings, execute_inputs}
use codera.Jobs.Table.{is_due, Table, Moment, Reply, answered, refused, lost, find, is_past}
use codera.Jobs.Store.{
  create, can_claim, claim_row, can_mark, mark_row, can_complete, complete_row, can_fail, fail_row,
  can_renew, renew_row,
}
use codera.Jobs.Recovery.{is_abandoned, recover_row, has_id, dispatch_row}
use codera.Jobs.History.{
  Operation, insert, update, Update, claim, mark_running, complete, fail_job, renew_lease, recover,
  dispatched, History, apply, apply_update, run, guard, action, effect,
}
use codera.Jobs.Rows.{after}
use codera.Jobs.Cells.{find-id}
use codera.Jobs.Runs.{find-create, find-update}

module _ (id w : String) where
  -- The end of the worker's lease on the job, after a write; a renewal that is carried out sets it.
  abbrev pub later_end : ℕ → Moment → Operation → ℕ
  later_end until m (insert j) = until
  later_end until m (update (claim k v lease)) = until
  later_end until m (update (mark_running k v)) = until
  later_end until m (update (complete k v results)) = until
  later_end until m (update (fail_job k v message backoff)) = until
  later_end until m (update (renew_lease k v lease)) =
      if str_eq id k && str_eq w v
      then elim m.reply [ answered ↦ m.now + lease | refused ↦ until | lost ↦ m.now + lease ]
      else until
  later_end until m (update recover) = until
  later_end until m (update (dispatched k)) = until

  abbrev pub end_after : ℕ → History → ℕ
  end_after until [] = until
  end_after until ((m, o) ∷ h) = end_after (later_end until m o) h

  -- A sweep runs before the lease has run out, and nobody writes in the worker's name but to renew.
  abbrev pub Harmless : ℕ → Moment → Operation → Type 0
  Harmless until m (insert j) = Unit
  Harmless until m (update (claim k v lease)) = Unit
  Harmless until m (update (mark_running k v)) = v ≢ w
  Harmless until m (update (complete k v results)) = v ≢ w
  Harmless until m (update (fail_job k v message backoff)) = v ≢ w
  Harmless until m (update (renew_lease k v lease)) = Unit
  Harmless until m (update recover) = m.now ≤ until
  Harmless until m (update (dispatched k)) = Unit

  abbrev pub Spares : ℕ → History → Type 0
  Spares until [] = Unit
  Spares until ((m, o) ∷ h) = Harmless until m o × Spares (later_end until m o) h

-- The row is as it was, but for the time of its last message and a later end of its lease.
pub record Undisturbed (w : String) (until : ℕ) (r s : ExecutionJob) : Type 0 where
  pub status : s.status ≡ r.status
  pub leased : is_leased s.status ≡ true
  pub worker : s.worker_id ≡ some w
  pub lease : is_past until s.lease_expires_at ≡ false
  pub language : s.language ≡ r.language
  pub source_code : s.source_code ≡ r.source_code
  pub inputs : s.inputs ≡ r.inputs
  pub attempts : s.attempt_count ≡ r.attempt_count

module _ (id w : String) (r : ExecutionJob) where
  pub can_renew-held :
      (until : ℕ) (k v : String) (s : ExecutionJob)
      → s.id ≡ id
      → Undisturbed w until r s
      → can_renew k v s ≡ (str_eq id k && str_eq w v)
  unfolding can_renew
  can_renew-held until k v s i h = rw (i, h.leased, h.worker) refl

  -- A renewal sets the end of the lease if it is carried out on the row, and is no renewal else.
  renew-Undisturbed :
      (until now lease : ℕ) (b : Bool) (s : ExecutionJob)
      → Undisturbed w until r s
      → Undisturbed w (if b then now + lease else until) r (if b then renew_row now lease s else s)
  unfolding renew_row
  renew-Undisturbed until now lease false s h = h
  renew-Undisturbed until now lease true s h = ground arith

  -- What an update does to the row, if it is carried out.
  effect-Undisturbed :
      (until now : ℕ) (a : Reply) (u : Update) (s : ExecutionJob)
      → a ≢ refused
      → s.id ≡ id
      → Harmless id w until (record { now = now; reply = a }) (update u)
      → Undisturbed w until r s
      → Undisturbed w
          (later_end id w until (record { now = now; reply = a }) (update u))
          r
          (effect now u s)
  unfolding effect guard action can_claim claim_row can_mark mark_row can_complete complete_row
      can_fail fail_row can_renew renew_row is_abandoned recover_row has_id dispatch_row
  effect-Undisturbed until now a (claim k v lease) s c i b h = ground arith
  effect-Undisturbed until now a (mark_running k v) s c i b h = ground (arith, eq_iff w v)
  effect-Undisturbed until now a (complete k v results) s c i b h = ground (arith, eq_iff w v)
  effect-Undisturbed until now a (fail_job k v message backoff) s c i b h =
      ground (arith, eq_iff w v)
  effect-Undisturbed until now answered (renew_lease k v lease) s c i b h =
      rw (can_renew-held until k v s i h) (renew-Undisturbed until now lease _ s h)
  effect-Undisturbed until now lost (renew_lease k v lease) s c i b h =
      rw (can_renew-held until k v s i h) (renew-Undisturbed until now lease _ s h)
  effect-Undisturbed until now refused (renew_lease k v lease) s c i b h = absurd (c refl)
  effect-Undisturbed until now a recover s c i b h = ground arith
  effect-Undisturbed until now a (dispatched k) s c i b h = ground arith

  later_end-refused :
      (until now : ℕ) (u : Update)
      → later_end id w until (record { now = now; reply = refused }) (update u) ≡ until
  later_end-refused until now (claim k v lease) = refl
  later_end-refused until now (mark_running k v) = refl
  later_end-refused until now (complete k v results) = refl
  later_end-refused until now (fail_job k v message backoff) = refl
  later_end-refused until now (renew_lease k v lease) = ground arith
  later_end-refused until now recover = refl
  later_end-refused until now (dispatched k) = refl

  -- A write that is refused changes neither the row nor the end of the lease.
  after-Undisturbed :
      (until now : ℕ) (a : Reply) (u : Update) (s : ExecutionJob)
      → s.id ≡ id
      → Harmless id w until (record { now = now; reply = a }) (update u)
      → Undisturbed w until r s
      → Undisturbed w
          (later_end id w until (record { now = now; reply = a }) (update u))
          r
          (after a (guard now u) (action now u) s)
  after-Undisturbed until now answered u s i b h =
      unfold effect in effect-Undisturbed until now answered u s (λ e. cc) i b h
  after-Undisturbed until now lost u s i b h =
      unfold effect in effect-Undisturbed until now lost u s (λ e. cc) i b h
  after-Undisturbed until now refused u s i b h = rw (later_end-refused until now u) h

  pub run-Undisturbed :
      (until : ℕ) (h : History) (t : Table) (s : ExecutionJob)
      → Spares id w until h
      → find id t ≡ some s
      → Undisturbed w until r s
      → (s' : ExecutionJob) × (find id (run h t) ≡ some s')
        × Undisturbed w (end_after id w until h) r s'
  unfolding run apply
  run-Undisturbed until [] t s q e u = (s, e, u)
  run-Undisturbed until ((m, insert j) ∷ h) t s (b, q) e u =
      run-Undisturbed until h (create m j t).0 s q (find-create m j id t e) u
  run-Undisturbed until ((m, update x) ∷ h) t s (b, q) e u =
      run-Undisturbed (later_end id w until m (update x)) h (apply_update m x t)
        (after m.reply (guard m.now x) (action m.now x) s) q (find-update m x id t e)
        (after-Undisturbed until m.now m.reply x s (find-id id t s e) b u)

module _ (w : String) (until : ℕ) where
  pub Undisturbed-self : {r s : ExecutionJob} → Undisturbed w until r s → Undisturbed w until s s
  Undisturbed-self u = record {
    status = refl;
    leased = u.leased;
    worker = u.worker;
    lease = u.lease;
    language = refl;
    source_code = refl;
    inputs = refl;
    attempts = refl;
  }

  pub Undisturbed-mark_row :
      {r s : ExecutionJob} (now : ℕ)
      → Undisturbed w until r s
      → Undisturbed w until (mark_row now s) (mark_row now s)
  unfolding mark_row
  Undisturbed-mark_row now u = record {
    status = refl;
    leased = refl;
    worker = u.worker;
    lease = u.lease;
    language = refl;
    source_code = refl;
    inputs = refl;
    attempts = refl;
  }

  -- The worker can go on with a row that others have left alone.
  pub can_mark-Undisturbed :
      (id : String) (r s : ExecutionJob)
      → s.id ≡ id
      → Undisturbed w until r s
      → is_claimed r.status ≡ true
      → can_mark id w s ≡ true
  unfolding can_mark
  can_mark-Undisturbed id r s same u c = ground (arith, eq_refl w, eq_refl id)

  pub can_complete-Undisturbed :
      (id : String) (r s : ExecutionJob)
      → s.id ≡ id
      → Undisturbed w until r s
      → is_running r.status ≡ true
      → can_complete id w s ≡ true
  unfolding can_complete
  can_complete-Undisturbed id r s same u c = ground (arith, eq_refl w, eq_refl id)

-- The row that a claim leaves is held.
pub Undisturbed-claim_row :
    (now : ℕ) (w : String) (lease : ℕ) (r : ExecutionJob)
    → Undisturbed w (now + lease) (claim_row now w lease r) (claim_row now w lease r)
unfolding claim_row
Undisturbed-claim_row now w lease r = record {
  status = refl;
  leased = refl;
  worker = refl;
  lease = ground arith;
  language = refl;
  source_code = refl;
  inputs = refl;
  attempts = refl;
}

pub can_claim-due :
    (now : ℕ) (id : String) (r : ExecutionJob)
    → r.id ≡ id
    → is_queued r.status ≡ true
    → is_due now r.next_retry_at ≡ true
    → can_claim now id r ≡ true
unfolding can_claim
can_claim-due now id r same q d = ground (arith, eq_refl id)

-- The program runs as it does for any job with its language and source.
pub execute_inputs-same :
    (s : Surroundings) (a b : ExecutionJob) (n : ℕ) (inputs : List Bytes)
    → a.language ≡ b.language
    → a.source_code ≡ b.source_code
    → execute_inputs s a n inputs ≡ execute_inputs s b n inputs
unfolding execute_inputs
execute_inputs-same s a b n [] l c = refl
execute_inputs-same s a b n (x ∷ xs) l c = rw (l, c, execute_inputs-same s a b (n + 1) xs l c) refl
