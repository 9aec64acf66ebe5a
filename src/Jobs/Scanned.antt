-- ===== src/Jobs/Scanned.antt =====
-- Theorems on the pages of jobs/pending_recovery.go.
use codera.Base.{
  ℕ, zero, suc, ◌+◌, ◌<◌, is_empty, String, Bool, true, false, ◌&&◌, not, List, [], ◌∷◌, ◌++◌,
  str_eq, if◌then◌else◌, ◌≡◌, ◌⊎◌, inl, inr, refl, arith, length, length-append, Bool-cases,
  append_assoc, append-nil,
}
use codera.Queue.{QueueCall, Entry}
use codera.Jobs.Pending.{Meeting, recover_batch}
use codera.Jobs.Pages.{
  PendingRecovery, claim_args, Claimed, claim_failed, batch, Sweep, after_claimed, claim_pages,
  run_recovery,
}

-- An answer at a cursor whose stale messages are the given ones: Redis documents that the messages
-- of an answer are followed by those at the cursor that it gives, and that the cursor "0-0" means
-- that there are no more.
abbrev pub IsPage : (String → List Entry) → Claimed → List Entry → Type 0
IsPage stale claim_failed es = Unit
IsPage stale (batch page next) es = if str_eq next "0-0" then es ≡ page else es ≡ page ++ stale next

-- An answer that ends the loop though it does not say that there are no more messages.
abbrev pub stops_early : Claimed → Bool
stops_early claim_failed = true
stops_early (batch es next) = is_empty es && not (str_eq next "0-0")

recover_batch-append :
    (meet : Entry → Meeting) (xs ys : List Entry)
    → recover_batch meet (xs ++ ys) ≡ recover_batch meet xs ++ recover_batch meet ys
unfolding recover_batch
recover_batch-append meet [] ys = refl
recover_batch-append meet (x ∷ xs) ys = rw (recover_batch-append meet xs ys) (rw append_assoc refl)

module _ (pr : PendingRecovery) (s : Sweep) (stale : String → List Entry) where
  -- The loop was ended by an answer at a cursor with these messages.
  abbrev pub IsCut : List Entry → Type 0
  IsCut es =
      (n : ℕ) × (cursor : String) × (stops_early (s.answer n (claim_args pr cursor)) ≡ true)
      × (stale cursor ≡ es)

  -- The loop has ended, and has handled each message once, in order, up to where it was cut.
  abbrev pub Ends : List Entry → List QueueCall × Bool → Type 0
  Ends es x =
      (handled : List Entry) × (left : List Entry) × (es ≡ handled ++ left)
      × (x ≡ (recover_batch s.meet handled, true))
      × ((left ≡ []) ⊎ IsCut left)

  cut_here :
      (n : ℕ) (start : String)
      → stops_early (s.answer n (claim_args pr start)) ≡ true
      → Ends (stale start) ([], true)
  cut_here n start h =
      ([], stale start, refl, unfold recover_batch in refl, inr (n, start, h, refl))

  go_on :
      (page es : List Entry) (x : List QueueCall × Bool)
      → Ends es x
      → Ends (page ++ es) (recover_batch s.meet page ++ x.0, x.1)
  go_on page es x (handled, left, e, f, c) =
      (page ++ handled, left, rw e (rw append_assoc refl), rw f (rw recover_batch-append refl), c)

  after_page-Ends :
      (fuel n : ℕ) (start : String) (rest : String → List QueueCall × Bool) (page : List Entry)
      (next : String)
      → s.answer n (claim_args pr start) ≡ batch page next
      → str_eq next "0-0" ≡ false
      → stale start ≡ page ++ stale next
      → length (stale start) < suc fuel
      → ((next : String) → length (stale next) < fuel → Ends (stale next) (rest next))
      → Ends (stale start) (
          if is_empty page
          then (recover_batch s.meet page, true)
          else (recover_batch s.meet page ++ (rest next).0, (rest next).1))
  after_page-Ends fuel n start rest [] next e more p lt ih =
      unfold recover_batch in cut_here n start (rw e (rw more refl))
  after_page-Ends fuel n start rest (x ∷ xs) next e more p lt ih = rw p (
      go_on (x ∷ xs) (stale next) (rest next)
        (ih next (omega (arith, rw p at lt, length-append {0} (x ∷ xs) (stale next)))))

  after_claimed-Ends :
      (fuel n : ℕ) (start : String) (rest : String → List QueueCall × Bool) (a : Claimed)
      → s.answer n (claim_args pr start) ≡ a
      → IsPage stale a (stale start)
      → length (stale start) < suc fuel
      → ((next : String) → length (stale next) < fuel → Ends (stale next) (rest next))
      → Ends (stale start) (after_claimed s.meet rest a)
  unfolding after_claimed
  after_claimed-Ends fuel n start rest claim_failed e p lt ih = cut_here n start (rw e refl)
  after_claimed-Ends fuel n start rest (batch page next) e p lt ih =
      elim (Bool-cases (str_eq next "0-0")) [
        | inl last ↦ rw last (page, [], rw (rw last at p) (rw append-nil refl), refl, inl refl)
        | inr more ↦
            rw more (after_page-Ends fuel n start rest page next e more (rw more at p) lt ih)
      ]

  module _
      (pages : (n : ℕ) (start : String)
        → IsPage stale (s.answer n (claim_args pr start)) (stale start)) where
    claim_pages-Ends :
        (fuel n : ℕ) (start : String)
        → length (stale start) < fuel
        → Ends (stale start) (claim_pages pr s fuel n start)
    unfolding claim_pages
    claim_pages-Ends zero n start lt = absurd (omega arith)
    claim_pages-Ends (suc fuel) n start lt =
        after_claimed-Ends fuel n start (claim_pages pr s fuel (n + 1))
          (s.answer n (claim_args pr start)) refl (pages n start) lt (claim_pages-Ends fuel (n + 1))

    -- If Redis answers as documented, runRecovery ends within one round more than there are stale
    -- messages. It handles each of them once, in their order, or only the first of them, and then
    -- it was ended, with the others left, by an error or by an empty answer whose cursor says that
    -- there are more.
    pub run_recovery-Ends :
        (fuel : ℕ) → length (stale "-") < fuel → Ends (stale "-") (run_recovery pr s fuel)
    unfolding run_recovery
    run_recovery-Ends fuel lt = claim_pages-Ends fuel 0 "-" lt
