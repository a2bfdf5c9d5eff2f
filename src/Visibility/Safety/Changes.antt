-- ===== src/Visibility/Safety/Changes.antt =====
-- Patching, activating and revoking an exposure, and the review handlers, keep `IsSafe`.
use infinitas_skill.Prelude.{
  ℕ, String, Bool, true, Option, some, List, any, inl, inr, Option-cases, if◌then◌else◌, ◌≡◌, refl,
  arith, get_or,
}
use infinitas_skill.Prelude.Text.{Text}
use infinitas_skill.Prelude.Result.{
  ok, err, Ensures, Ensures-ok, Ensures-err, Ensures-bind, Ensures-guard, Ensures-if, require-eq-ok,
  conflict,
}
use infinitas_skill.Prelude.Table.{latest, All-get, any_of_latest, latest-test}
use infinitas_skill.Prelude.Table.Keys.{latest-get}
use infinitas_skill.Visibility.Model.{
  Db, Exposure, Release, ReviewCase, ReviewMode, revoked, closed, is_blocking, is_active, is_open,
  is_closed, exposure_row, case_row,
}
use infinitas_skill.Visibility.Review.{of_exposure, open_of_exposure, record_decision}
use infinitas_skill.Visibility.Exposure.{
  get_exposure_or_404, Caller, PatchRequest, patch_exposure, assert_reviewed, activate_waiting,
  activate_exposure, revoke_open, revoke_exposure, patched, activated, close_open_case, is_revoked,
}
use infinitas_skill.Visibility.Reviewing.{create_review_case, create_review_decision}
use infinitas_skill.Visibility.Safety.{
  IsSafe, Reviewed, approved_of, flush-IsSafe, audit-IsSafe, open-IsSafe, replaced-IsSafe,
  decide-IsSafe,
}

found-Reviewed :
    (db : Db) (id : ℕ) (e : Exposure)
    → IsSafe db
    → get_exposure_or_404 db id ≡ ok e
    → Reviewed db.cases e
unfolding get_exposure_or_404
found-Reviewed db id e s h =
    All-get (Reviewed db.cases) id db.exposures e s.reviewed (require-eq-ok _ _ h)

patched-Reviewed :
    (cases : List ReviewCase) (e : Exposure) (payload : PatchRequest)
    → Reviewed cases e
    → Reviewed cases (patched e payload)
unfolding patched
patched-Reviewed cases e payload r = r

activated-Reviewed :
    (cases : List ReviewCase) (e : Exposure) (now : ℕ)
    → (is_blocking e.review_requirement ≡ true → any (approved_of e.id) cases ≡ true)
    → Reviewed cases e
    → Reviewed cases (activated e now)
unfolding activated
activated-Reviewed cases e now h r = ground arith

revoked-Reviewed :
    (cases : List ReviewCase) (e : Exposure) (at : Option ℕ) (before : List ReviewCase)
    → Reviewed before e
    → Reviewed cases (record e { state = revoked; ended_at = at })
revoked-Reviewed cases e at before r = ground arith

pub patch-IsSafe :
    (db : Db) (id : ℕ) (caller : Caller) (payload : PatchRequest)
    → IsSafe db
    → Ensures (λ r. IsSafe r.1) (patch_exposure db id caller payload)
unfolding patch_exposure
patch-IsSafe db id caller payload s = Ensures-bind _ _ λ e there. Ensures-bind _ _ λ release _.
    Ensures-bind _ _ λ _ _. Ensures-guard _ _ _ λ _. Ensures-guard _ _ _ λ _.
      let r : Reviewed db.cases (patched e payload) =
        patched-Reviewed db.cases e payload (found-Reviewed db id e s there) in
      Ensures-bind _ _ λ db1 flushed.
        let s1 = (flush-IsSafe db (patched e payload) s r).at db1 flushed in
        Ensures-bind _ _ λ db2 logged.
          Ensures-ok _
            ((audit-IsSafe db1 (patched e payload) "exposure.updated" caller s1).at db2 logged)

-- The guards on the reviews let an exposure that needs one through only if it has been approved.
assert_reviewed-approved :
    (db : Db) (e : Exposure) {u : Unit {0}}
    → assert_reviewed db e ≡ ok u
    → is_blocking e.review_requirement ≡ true
    → any (approved_of e.id) db.cases ≡ true
unfolding assert_reviewed
assert_reviewed-approved db e h b = elim (Option-cases (latest (of_exposure e.id) db.cases)) [
  | inl n ↦ ground arith
  | inr (c, n) ↦
      any_of_latest (of_exposure e.id) (approved_of e.id) db.cases c n
        (ground (arith, latest-test (of_exposure e.id) db.cases c n))
]

activate_waiting-IsSafe :
    (db : Db) (release : Release) (e : Exposure) (caller : Caller) (now : ℕ)
    → IsSafe db
    → Reviewed db.cases e
    → Ensures (λ r. IsSafe r.1) (activate_waiting db release e caller now)
unfolding activate_waiting
activate_waiting-IsSafe db release e caller now s r = Ensures-bind _ _ λ compatibility _.
    Ensures-bind _ _ λ u checked.
      let r' : Reviewed db.cases (activated e now) =
        activated-Reviewed db.cases e now (assert_reviewed-approved db e checked) r in
      Ensures-bind _ _ λ db1 flushed.
        let s1 = (flush-IsSafe db (activated e now) s r').at db1 flushed in
        Ensures-bind _ _ λ db2 logged.
          Ensures-ok _
            ((audit-IsSafe db1 (activated e now) "exposure.activated" caller s1).at db2 logged)

pub activate-IsSafe :
    (db : Db) (id : ℕ) (caller : Caller) (now : ℕ)
    → IsSafe db
    → Ensures (λ r. IsSafe r.1) (activate_exposure db id caller now)
unfolding activate_exposure
activate-IsSafe db id caller now s = Ensures-bind _ _ λ e there. Ensures-bind _ _ λ release _.
    Ensures-bind _ _ λ _ _.
      let waiting = activate_waiting db release e caller now in
      let refused = err (conflict "closed exposure cannot be re-activated") in
      Ensures-if (is_active e.state) (ok (e, db)) (if is_closed e.state then refused else waiting)
        (λ _. Ensures-ok _ s)
        λ _.
          Ensures-if (is_closed e.state) refused waiting (λ _. Ensures-err _)
            λ _. activate_waiting-IsSafe db release e caller now s (found-Reviewed db id e s there)

close_open-IsSafe : (db : Db) (id now : ℕ) → IsSafe db → IsSafe (close_open_case db id now)
unfolding close_open_case
close_open-IsSafe db id now s = elim (Option-cases (latest (open_of_exposure id) db.cases)) [
  | inl n ↦ rw (n, close_open_case) s
  | inr (c, n) ↦
      let o : is_open c.state ≡ true =
        ground (arith, latest-test (open_of_exposure id) db.cases c n) in
      rw (n, close_open_case)
        (rw o (
          replaced-IsSafe db c (record c { state = closed; closed_at = some now }) refl
            (latest-get (open_of_exposure id) db.cases c s.case_keys n) o s))
]

revoke_open-IsSafe :
    (db : Db) (e : Exposure) (caller : Caller) (now : ℕ)
    → IsSafe db
    → ((cases : List ReviewCase)
        → Reviewed cases (record e { state = revoked; ended_at = some now }))
    → Ensures (λ r. IsSafe r.1) (revoke_open db e caller now)
unfolding revoke_open
revoke_open-IsSafe db e caller now s r =
    let e' : Exposure = record e { state = revoked; ended_at = some now } in
    let db0 = close_open_case db e.id now in
    Ensures-bind _ _ λ db1 flushed.
      let s1 =
        (flush-IsSafe db0 e' (close_open-IsSafe db e.id now s) (r db0.cases)).at db1 flushed in
      Ensures-bind _ _ λ db2 logged.
        Ensures-ok _ ((audit-IsSafe db1 e' "exposure.revoked" caller s1).at db2 logged)

pub revoke-IsSafe :
    (db : Db) (id : ℕ) (caller : Caller) (now : ℕ)
    → IsSafe db
    → Ensures (λ r. IsSafe r.1) (revoke_exposure db id caller now)
unfolding revoke_exposure
revoke-IsSafe db id caller now s = Ensures-bind _ _ λ e there. Ensures-bind _ _ λ release _.
    Ensures-bind _ _ λ _ _.
      Ensures-if (is_revoked e.state) (ok (e, db)) (revoke_open db e caller now)
        (λ _. Ensures-ok _ s)
        λ _.
          revoke_open-IsSafe db e caller now s
            λ cases. revoked-Reviewed cases e (some now) db.cases (found-Reviewed db id e s there)

pub create_case-IsSafe :
    (db : Db) (id p : ℕ) (is_maintainer : Bool) (mode : Option ReviewMode)
    → IsSafe db
    → Ensures (λ r. IsSafe r.1) (create_review_case db id p is_maintainer mode)
unfolding create_review_case
create_case-IsSafe db id p is_maintainer mode s = Ensures-bind _ _ λ e _.
    Ensures-bind _ _ λ release _.
      Ensures-bind _ _ λ _ _. Ensures-ok _ (open-IsSafe db e p (get_or mode e.review_requirement) s)

pub decision-IsSafe :
    (db : Db) (id p : ℕ) (is_maintainer : Bool) (decision : Text) (note : String) (now : ℕ)
    → IsSafe db
    → Ensures (λ r. IsSafe r.2) (create_review_decision db id p is_maintainer decision note now)
unfolding create_review_decision record_decision
decision-IsSafe db id p is_maintainer decision note now s =
    Ensures-bind _ _ λ c _. Ensures-bind _ _ λ d _. decide-IsSafe db id p d note now s
