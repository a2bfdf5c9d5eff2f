-- ===== src/Visibility/Reviewing.antt =====
-- server/modules/review/router.py: the handlers that open a review case and decide one. The scope
-- checks on the credential come before them.
use infinitas_skill.Prelude.{ℕ, String, Bool, false, Option, none, some, not, ◌==◌, get_or}
use infinitas_skill.Prelude.Text.{Text}
use infinitas_skill.Prelude.Result.{Result, ok, forbidden, ◌>>=◌, ◌>>◌, ensure}
use infinitas_skill.Visibility.Model.{Db, Exposure, ReviewCase, ReviewMode}
use infinitas_skill.Visibility.Release.{get_release_or_404, assert_release_owner}
use infinitas_skill.Visibility.Review.{open_review_case, get_review_case_or_404, record_decision}
use infinitas_skill.Visibility.Exposure.{get_exposure_or_404}

-- `create_review_case`
unfoldable pub create_review_case : Db → ℕ → ℕ → Bool → Option ReviewMode → Result (ReviewCase × Db)
unfolding get_exposure_or_404 get_release_or_404 assert_release_owner open_review_case
create_review_case db exposure_id principal_id is_maintainer mode = do
  exposure ← get_exposure_or_404 db exposure_id
  release ← get_release_or_404 db exposure.release_id
  assert_release_owner db release principal_id is_maintainer
  ok (open_review_case db exposure principal_id (get_or mode exposure.review_requirement))

abbrev pub is_requester : Exposure → ℕ → Bool
is_requester exposure principal_id = elim exposure.requested_by_principal_id [
  | none ↦ false
  | some requester ↦ requester == principal_id
]

-- `_get_review_case_for_reviewer`
unfoldable pub get_review_case_for_reviewer : Db → ℕ → ℕ → Bool → Result ReviewCase
unfolding get_review_case_or_404 get_exposure_or_404 get_release_or_404 assert_release_owner
get_review_case_for_reviewer db review_case_id reviewer_principal_id is_maintainer = do
  review_case ← get_review_case_or_404 db review_case_id
  exposure ← get_exposure_or_404 db review_case.exposure_id
  ensure (not (is_requester exposure reviewer_principal_id))
      (forbidden "self-review is not allowed")
  release ← get_release_or_404 db exposure.release_id
  assert_release_owner db release reviewer_principal_id is_maintainer
  ok review_case

-- `create_review_decision`
unfoldable pub create_review_decision :
    Db → ℕ → ℕ → Bool → Text → String → ℕ → Result (ReviewCase × Exposure × Db)
unfolding get_review_case_for_reviewer record_decision
create_review_decision db review_case_id principal_id is_maintainer decision note now = do
  checked ← get_review_case_for_reviewer db review_case_id principal_id is_maintainer
  record_decision db review_case_id principal_id decision note now
