-- ===== src/Visibility/Returned.antt =====
-- What must have held when a call of the visibility services has returned.
use infinitas_skill.Prelude.{ℕ, Bool, true, false, some, any, ◌≡◌, ◌≢◌, ◌⊎◌}
use infinitas_skill.Prelude.Text.{Text}
use infinitas_skill.Prelude.Result.{ok}
use infinitas_skill.Prelude.Table.{get}
use infinitas_skill.Visibility.Model.{
  Db, Release, Exposure, ReviewCase, is_active, is_closed, release_row, exposure_row, case_row,
}
use infinitas_skill.Visibility.Release.{assert_release_owner}
use infinitas_skill.Visibility.Review.{clashes}
use infinitas_skill.Visibility.Exposure.{activated, assert_reviewed}

-- The case, its exposure and the release that a reviewer is let through to
pub record Reviewable (db : Db) (case_id p : ℕ) (is_maintainer : Bool) : Type 0 where
  pub review_case : ReviewCase
  pub exposure : Exposure
  pub release : Release
  pub case_found : get case_id db.cases ≡ some review_case
  pub exposure_found : get review_case.exposure_id db.exposures ≡ some exposure
  pub release_found : get exposure.release_id db.releases ≡ some release
  pub owner : assert_release_owner db release p is_maintainer ≡ ok tt
  pub not_own : exposure.requested_by_principal_id ≢ some p

-- What an activation that returns was made on, and what it left
abbrev pub ActivatedFrom : Db → ℕ → ℕ → Exposure → Exposure × Db → Type 0
ActivatedFrom db id now e r =
    (is_closed e.state ≡ false)
    × (((is_active e.state ≡ true) × (r.0 ≡ e) × (r.1 ≡ db))
        ⊎ ((assert_reviewed db e ≡ ok tt)
            × (any (clashes e) db.exposures ≡ false)
            × (r.0 ≡ activated e now)))
    × (get id r.1.exposures ≡ some r.0)
