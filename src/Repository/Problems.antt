-- ===== src/Repository/Problems.antt =====
-- backend/internal/repository/problem_repo.go
use codera.Base.{◌≤◌, String, Bool, true, false, Option, none, some, List}
use codera.Domain.{Problem}
use codera.Repository.Rows.{InsertReply, Looked, insert, look_up, OrderBy}

module _ {Float : Type 0} where
  -- `p.ID` is not sent.
  unfoldable pub create :
      InsertReply
      → Problem Float
      → List (Problem Float)
      → List (Problem Float) × Option (Problem Float)
  unfolding insert
  create reply p t = insert (λ id. record p { id = id }) reply t

  unfoldable pub get_by_id : Bool → String → List (Problem Float) → Looked (Problem Float)
  unfolding look_up
  get_by_id up id t = look_up (λ p. p.id) up id t

  -- ORDER BY created_at DESC
  abbrev pub IsNewer : Problem Float → Problem Float → Type 0
  IsNewer p q = q.created_at ≤ p.created_at

  unfoldable pub list_all :
      OrderBy (Problem Float) IsNewer → Bool → List (Problem Float) → Option (List (Problem Float))
  list_all o false t = none
  list_all o true t = some (o.order_by t)
