-- ===== src/Repository/Updates.antt =====
-- Lemmas on Update and GetByID of repository/submission_repo.go.
use codera.Base.{
  String, Bool, true, false, List, [], ◌∷◌, ◌≡◌, ◌⊎◌, refl, arith, inl, inr, str_eq, eq_iff,
  Bool-cases, ◌++◌,
}
use codera.Domain.{Submission}
use codera.Jobs.Table.{Reply, answered, refused, lost}
use codera.Repository.Rows.{InsertReply, returned, Looked, found, missing, failing, insert, look_up}
use codera.Repository.Submissions.{create, updated, update_rows, update}

-- A row found, as an update of it leaves it.
abbrev pub after_update : Submission → Looked Submission → Looked Submission
after_update s (found r) = found (updated s r)
after_update s missing = missing
after_update s failing = failing

look_up-update_rows :
    (s : Submission) (t : List Submission)
    → look_up (λ r. r.id) true s.id (update_rows s t)
      ≡ after_update s (look_up (λ r. r.id) true s.id t)
unfolding look_up update_rows updated
look_up-update_rows s [] = refl
look_up-update_rows s (r ∷ t) = ground (arith, look_up-update_rows s t)

other_row :
    (id : String) (s : Submission) (t : List Submission)
    → str_eq s.id id ≡ false
    → look_up (λ r. r.id) true id (update_rows s t) ≡ look_up (λ r. r.id) true id t
unfolding look_up update_rows updated
other_row id s [] h = refl
other_row id s (r ∷ t) h =
    ground (arith, h, other_row id s t h, eq_iff r.id id, eq_iff r.id s.id, eq_iff s.id id)

-- Whether the statement is carried out, whatever its answer.
abbrev pub is_carried_out : Reply → Bool
is_carried_out answered = true
is_carried_out refused = false
is_carried_out lost = true

module _ (id : String) (s : Submission) (same : s.id ≡ id) where
  pub look_up-update :
      (a : Reply) (t : List Submission)
      → is_carried_out a ≡ true
      → look_up (λ r. r.id) true id (update a s t).0
        ≡ after_update s (look_up (λ r. r.id) true id t)
  unfolding update
  look_up-update answered t h = rw (← same) (look_up-update_rows s t)
  look_up-update refused t h = ground (arith, h)
  look_up-update lost t h = rw (← same) (look_up-update_rows s t)

-- An update of another row, or one that is refused, changes nothing.
pub look_up-update_any :
    (id : String) (s : Submission) (a : Reply) (t : List Submission)
    → (look_up (λ r. r.id) true id (update a s t).0 ≡ look_up (λ r. r.id) true id t)
      ⊎ (look_up (λ r. r.id) true id (update a s t).0
          ≡ after_update s (look_up (λ r. r.id) true id t))
unfolding update
look_up-update_any id s refused t = inl refl
look_up-update_any id s answered t = elim (Bool-cases (str_eq s.id id)) [
  | inl e ↦ inr (look_up-update id s ((eq_iff s.id id).0 e) answered t refl)
  | inr e ↦ inl (other_row id s t e)
]
look_up-update_any id s lost t = elim (Bool-cases (str_eq s.id id)) [
  | inl e ↦ inr (look_up-update id s ((eq_iff s.id id).0 e) lost t refl)
  | inr e ↦ inl (other_row id s t e)
]

-- A row that is found is found after rows are added behind it.
look_up-stays :
    (id : String) (t us : List Submission) (r : Submission)
    → look_up (λ x. x.id) true id t ≡ found r
    → look_up (λ x. x.id) true id (t ++ us) ≡ found r
unfolding look_up
look_up-stays id [] us r h = ground (arith, h)
look_up-stays id (x ∷ t) us r h = ground (arith, h, look_up-stays id t us r)

pub look_up-create :
    (id : String) (reply : InsertReply) (s : Submission) (t : List Submission) (r : Submission)
    → look_up (λ x. x.id) true id t ≡ found r
    → look_up (λ x. x.id) true id (create reply s t).0 ≡ found r
unfolding create insert
look_up-create id (returned k) s t r h = look_up-stays id t _ r h
look_up-create id InsertReply.refused s t r h = h
look_up-create id (InsertReply.lost k) s t r h = look_up-stays id t _ r h
