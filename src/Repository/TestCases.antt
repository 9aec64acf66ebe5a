-- ===== src/Repository/TestCases.antt =====
-- backend/internal/repository/testcase_repo.go
use codera.Base.{◌≡◌, true, String, Bool, true, false, ◌&&◌, ◌||◌, Option, none, some, List, str_eq}
use codera.Config.Numbers.{is_at_most}
use codera.Domain.{TestCase, TestCaseVisibility, visible}
use codera.Repository.Rows.{InsertReply, insert, select, OrderBy}

unfoldable pub create : InsertReply → TestCase → List TestCase → List TestCase × Option TestCase
unfolding insert
create reply tc t = insert (λ id. record tc { id = id }) reply t

-- visibility = 'PUBLIC'
abbrev pub is_public : TestCaseVisibility → Bool
is_public visible = true
is_public _ = false

-- ORDER BY sort_order ASC
abbrev pub IsEarlier : TestCase → TestCase → Type 0
IsEarlier x y = is_at_most x.sort_order y.sort_order ≡ true

abbrev pub matches : String → Bool → TestCase → Bool
matches problem_id include_hidden tc =
    str_eq tc.problem_id problem_id && (include_hidden || is_public tc.visibility)

unfoldable pub get_by_problem_id :
    OrderBy TestCase IsEarlier → Bool → String → Bool → List TestCase → Option (List TestCase)
get_by_problem_id o false problem_id include_hidden t = none
get_by_problem_id o true problem_id include_hidden t =
    some (o.order_by (select (matches problem_id include_hidden) t))
