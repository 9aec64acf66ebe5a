-- ===== src/Jobs/Contracted.antt =====
-- Theorems on the store on Postgres and the contract of the interface JobStore.
use codera.Base.{
  ℕ, String, Bool, true, false, ◌&&◌, Option, none, some, List, [], ◌∷◌, ◌≡◌, refl, sym, ap, ◌∙◌,
  arith, str_eq, eq_iff, eq_refl, if◌then◌else◌, Bool-cases, Option-cases, inl, inr,
}
use mathlib.Core.Path.{fun_ext}
use codera.Jobs.Job.{ExecutionJob, is_queued, is_claimed, is_running, is_leased}
use codera.Jobs.Table.{Table, Reply, answered, refused, lost, Moment, owned_by, is_due, find, exec}
use codera.Jobs.Store
use codera.Jobs.Store.{
  StoreError, check_affected, inserted, can_claim, claim_row, can_mark, mark_row, can_complete,
  complete_row, can_fail, fail_row, can_renew, renew_row,
}
use codera.Jobs.Rows.{Unique, after, find-exec, Unique-exec}
use codera.Jobs.History.{check_affected_table}
use codera.Jobs.Ownership.{error_for, check-exec}
use codera.Jobs.Cells.{find-id}
use codera.Jobs.Contract.{
  JobMap, with_job, moved, found_and, move, as_new, as_failed, added, looked, contract,
  postgres_store, Call, creates, gets, claims, marks, completes, fails, renews, Returned, wrote,
  got, call, call_all,
}

-- The table as a map.
abbrev pub view : Table → JobMap
view t id = find id t

-- A method on the table does what the contract says, to the map and to the caller.
abbrev Refines : Table × Option StoreError → JobMap × Option StoreError → Type 0
Refines x y = (view x.0 ≡ y.0) × (x.1 ≡ y.1) × Unique x.0

moved-other :
    (id k : String) (o : Option ExecutionJob) (m : JobMap)
    → str_eq id k ≡ false
    → (moved id o m).0 k ≡ m k
moved-other id k none m h = refl
moved-other id k (some j) m h = rw h refl

module _ (id : String) (q : ExecutionJob → Bool) (f : ExecutionJob → ExecutionJob) where
  abbrev by_key : ExecutionJob → Bool
  by_key r = str_eq r.id id && q r

  -- What the statement leaves of what is found under a key.
  abbrev left : Option ExecutionJob → Option ExecutionJob
  left none = none
  left (some r) = some (if by_key r then f r else r)

  left-same :
      (o : Option ExecutionJob) (m : JobMap)
      → m id ≡ o
      → ((r : ExecutionJob) → o ≡ some r → r.id ≡ id)
      → left o ≡ (moved id (found_and q f o) m).0 id
  left-same none m h k = sym h
  left-same (some r) m h k =
      let i : str_eq r.id id ≡ true = (eq_iff r.id id).1 (k r refl) in
      elim (Bool-cases (q r)) [ inl y ↦ rw (i, y, eq_refl id) refl | inr n ↦ rw (i, n) (sym h) ]

  left-other :
      (k : String) (o : Option ExecutionJob)
      → str_eq id k ≡ false
      → ((r : ExecutionJob) → o ≡ some r → r.id ≡ k)
      → left o ≡ o
  left-other k none h i = refl
  left-other k (some r) h i =
      let n : str_eq r.id id ≡ false =
        rw (i r refl) (ground (arith, h, eq_iff k id, eq_iff id k)) in
      rw n refl

  left-find :
      (t : Table) (k : String)
      → left (find k t) ≡ (moved id (found_and q f (find id t)) (view t)).0 k
  left-find t k = elim (Bool-cases (str_eq id k)) [
    | inl e ↦
        let same : id ≡ k = (eq_iff id k).0 e in
        rw (← same) (left-same (find id t) (view t) refl (find-id id t))
    | inr e ↦
        left-other k (find k t) e (find-id k t)
        ∙ sym (moved-other id k (found_and q f (find id t)) (view t) e)
  ]

  error-moved :
      (o : Option ExecutionJob) (m : JobMap) → error_for q o ≡ (moved id (found_and q f o) m).1
  error-moved none m = refl
  error-moved (some r) m = ground arith

  left-answered :
      (o : Option ExecutionJob)
      → elim o [ none ↦ none | some r ↦ some (after answered by_key f r) ] ≡ left o
  left-answered none = refl
  left-answered (some r) = refl

  module _ (same_id : (r : ExecutionJob) → (f r).id ≡ r.id) (t : Table) (u : Unique t) where
    exec-view :
        view (exec answered by_key f t).0 ≡ (moved id (found_and q f (find id t)) (view t)).0
    exec-view =
        fun_ext
          (λ k. find-exec by_key f same_id answered k t ∙ left-answered (find k t) ∙ left-find t k)

    exec-Refines :
        (a : Reply) → Refines (check_affected (exec a by_key f t)) (move a id q f (view t))
    exec-Refines answered = (
      rw check_affected_table exec-view,
      check-exec id q f t u ∙ error-moved (find id t) (view t),
      rw check_affected_table (Unique-exec by_key f same_id answered t u),
    )
    exec-Refines refused = unfold exec check_affected in (refl, refl, u)
    exec-Refines lost = (
      rw check_affected_table (unfold exec in exec-view),
      unfold exec check_affected in refl,
      rw check_affected_table (Unique-exec by_key f same_id lost t u),
    )

inserted-new : (j : ExecutionJob) → is_queued j.status ≡ true → inserted j ≡ as_new j
unfolding inserted
inserted-new j e = ground (arith, e)

view-insert :
    (j : ExecutionJob) (t : Table)
    → is_queued j.status ≡ true
    → view (inserted j ∷ t) ≡ with_job j.id (as_new j) (view t)
unfolding find
view-insert j t e = rw (inserted-new j e) refl

-- FailJob decides once what the fields of its CASE expressions become one by one.
fail_row_lem :
    (now : ℕ) (message : String) (backoff : ℕ)
    → fail_row now message backoff ≡ as_failed now message backoff
unfolding fail_row
fail_row_lem now message backoff = fun_ext (λ r. ground arith)

absent : (j : ExecutionJob) (t : Table) → find j.id t ≡ none → find (inserted j).id t ≡ none
unfolding inserted
absent j t h = h

-- A row that was not there, as the database answers.
inserted-Refines :
    (now : ℕ) (a : Reply) (j : ExecutionJob) (t : Table)
    → is_queued j.status ≡ true
    → Unique t
    → find j.id t ≡ none
    → Refines
        (Store.insert_row (record { now = now; reply = a }) j none t)
        (added a j none (view t))
unfolding Store.insert_row
inserted-Refines now answered j t e u h = (view-insert j t e, refl, (absent j t h, u))
inserted-Refines now refused j t e u h = (refl, refl, u)
inserted-Refines now lost j t e u h = (view-insert j t e, refl, (absent j t h, u))

create-Refines :
    (m : Moment) (j : ExecutionJob) (t : Table)
    → Unique t
    → Refines (Store.create m j t) (contract.create m j (view t))
unfolding Store.create
create-Refines m j t u = elim (Bool-cases (is_queued j.status)) [
  | inr e ↦ rw e (refl, refl, u)
  | inl e ↦ elim (Option-cases (find j.id t)) [
    | inl h ↦ rw (e, h) (inserted-Refines m.now m.reply j t e u h)
    | inr (r, h) ↦ rw (e, h) (refl, refl, u)
  ]
]

got-looked :
    (now : ℕ) (a : Reply) (id : String) (t : Table)
    → Store.get (record { now = now; reply = a }) id t ≡ looked a (find id t)
unfolding Store.get
got-looked now answered id t = elim (Option-cases (find id t)) [
  | inl h ↦ rw h refl
  | inr (r, h) ↦ rw h refl
]
got-looked now refused id t = refl
got-looked now lost id t = refl

-- One call: what it leaves, what it returns, and that it keeps the keys unique.
abbrev CallRefines : Table × Returned → JobMap × Returned → Type 0
CallRefines x y = (view x.0 ≡ y.0) × (x.1 ≡ y.1) × Unique x.0

returned :
    (x : Table × Option StoreError) (y : JobMap × Option StoreError)
    → Refines x y
    → CallRefines (x.0, wrote x.1) (y.0, wrote y.1)
returned x y (s, e, u) = (s, ap wrote e, u)

call-Refines :
    (m : Moment) (c : Call) (t : Table)
    → Unique t
    → CallRefines (call postgres_store m c t) (call contract m c (view t))
unfolding call Store.claim Store.mark_running Store.complete Store.fail_job Store.renew_lease
    can_claim can_mark can_complete can_fail can_renew claim_row mark_row complete_row renew_row
call-Refines m (creates j) t u =
    returned (Store.create m j t) (contract.create m j (view t)) (create-Refines m j t u)
call-Refines m (gets id) t u = (refl, ap got (got-looked m.now m.reply id t), u)
call-Refines m (claims id worker lease) t u =
    returned _ (contract.claim m id worker lease (view t)) (
      exec-Refines id (λ r. is_queued r.status && is_due m.now r.next_retry_at)
        (claim_row m.now worker lease) (λ r. refl) t u m.reply)
call-Refines m (marks id worker) t u = returned _ (contract.mark_running m id worker (view t)) (
    exec-Refines id (λ r. is_claimed r.status && owned_by worker r.worker_id) (mark_row m.now)
      (λ r. refl) t u m.reply)
call-Refines m (completes id worker results) t u =
    returned _ (contract.complete m id worker results (view t)) (
      exec-Refines id (λ r. is_running r.status && owned_by worker r.worker_id)
        (complete_row m.now results) (λ r. refl) t u m.reply)
call-Refines m (fails id worker message backoff) t u = rw (fail_row_lem m.now message backoff) (
    returned _ (contract.fail_job m id worker message backoff (view t)) (
      exec-Refines id (λ r. owned_by worker r.worker_id && is_leased r.status)
        (as_failed m.now message backoff) (λ r. ground arith) t u m.reply))
call-Refines m (renews id worker lease) t u =
    returned _ (contract.renew_lease m id worker lease (view t)) (
      exec-Refines id (λ r. is_leased r.status && owned_by worker r.worker_id)
        (renew_row m.now lease) (λ r. refl) t u m.reply)

-- The store on Postgres refines the contract of the interface: from a table whose keys are unique,
-- whatever calls are made, at whatever moments and however the database answers, each returns what
-- the contract returns, the errors included, and the table is the map of the contract in the end.
pub postgres_store-Refines :
    (cs : List (Moment × Call)) (t : Table)
    → Unique t
    → (view (call_all postgres_store cs t).0 ≡ (call_all contract cs (view t)).0)
      × ((call_all postgres_store cs t).1 ≡ (call_all contract cs (view t)).1)
unfolding call_all
postgres_store-Refines [] t u = (refl, refl)
postgres_store-Refines ((m, c) ∷ cs) t u =
    let (s, x, u') = call-Refines m c t u in
    let (s', xs) = postgres_store-Refines cs (call postgres_store m c t).0 u' in
    rw (← s) (s', rw (x, xs) refl)
