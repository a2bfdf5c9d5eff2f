-- ===== src/Visibility/Safety/Calls.antt =====
-- Each call of the exposure service and of the review handlers keeps `IsSafe`.
use infinitas_skill.Prelude.{
  ℕ, String, Bool, true, false, Option, List, any, not, ◌&&◌, ◌||◌, inl, inr, Bool-cases,
  if◌then◌else◌, ◌≡◌, refl, sym, subst, ◌∙◌, arith,
}
use infinitas_skill.Prelude.Text.{lower, strip}
use infinitas_skill.Prelude.Result.{
  Returns, ok, Ensures, Ensures-ok, Ensures-bind, Ensures-guard, ok-injective, ◌>>=◌,
}
use infinitas_skill.Prelude.Table.{next_id}
use infinitas_skill.Visibility.Model.{
  Db, Exposure, Release, Audience, private, authenticated, grant, public, ReviewCase, ReviewMode,
  no_review, advisory, blocking, is_blocking, is_active, is_public, exposure_row, case_row,
}
use infinitas_skill.Visibility.Policy.{PolicyOutcome, outcome_of}
use infinitas_skill.Visibility.Review.{open_review_case}
use infinitas_skill.Visibility.Exposure.{
  Caller, CreateRequest, evaluate_create_policy, resolve_create_policy, build_exposure,
  persist_new_exposure, placed, create_exposure, holds_place, needs_case, audit_exposure,
}
use infinitas_skill.Visibility.Safety.{IsSafe, Reviewed, flush-IsSafe, audit-IsSafe, open-IsSafe}

evaluate-eq-outcome :
    (a : Audience) (m : ReviewMode) → evaluate_create_policy a m ≡ ok (outcome_of a m)
unfolding evaluate_create_policy ◌>>=◌ lower strip
evaluate-eq-outcome private no_review = refl
evaluate-eq-outcome private advisory = refl
evaluate-eq-outcome private blocking = refl
evaluate-eq-outcome authenticated no_review = refl
evaluate-eq-outcome authenticated advisory = refl
evaluate-eq-outcome authenticated blocking = refl
evaluate-eq-outcome grant no_review = refl
evaluate-eq-outcome grant advisory = refl
evaluate-eq-outcome grant blocking = refl
evaluate-eq-outcome public no_review = refl
evaluate-eq-outcome public advisory = refl
evaluate-eq-outcome public blocking = refl

-- The policy accepts every audience and mode of a request. It keeps the audience, a public exposure
-- needs a blocking review and a grant the review that was asked for, and the exposure is active at
-- once exactly if its review does not block.
pub create_policy_outcome :
    (a : Audience) (m : ReviewMode)
    → Returns
        (λ o.
          (o.audience_type ≡ a)
          × (a ≡ public → o.review_requirement ≡ blocking)
          × (a ≡ grant → o.review_requirement ≡ m)
          × (o.auto_activate ≡ not (is_blocking o.review_requirement)))
        (evaluate_create_policy a m)
unfolding outcome_of
create_policy_outcome private m = rw (evaluate-eq-outcome private m) (refl, λ h. cc, λ h. cc, refl)
create_policy_outcome authenticated m =
    rw (evaluate-eq-outcome authenticated m) (refl, λ h. cc, λ h. cc, refl)
create_policy_outcome grant m = rw (evaluate-eq-outcome grant m) (refl, λ h. cc, λ h. refl, refl)
create_policy_outcome public m = rw (evaluate-eq-outcome public m) (refl, λ h. refl, λ h. cc, refl)

-- What the safety of a new exposure needs of the policy
abbrev IsStrict : PolicyOutcome → Type 0
IsStrict o =
    ((not (is_public o.audience_type) || is_blocking o.review_requirement) ≡ true)
    × ((o.auto_activate && is_blocking o.review_requirement) ≡ false)

outcome-IsStrict : (a : Audience) (m : ReviewMode) → IsStrict (outcome_of a m)
unfolding outcome_of
outcome-IsStrict a m = ground arith

resolved-IsStrict :
    (db : Db) (release : Release) (payload : CreateRequest)
    → Ensures (λ r. IsStrict r.0) (resolve_create_policy db release payload)
unfolding resolve_create_policy
resolved-IsStrict db release payload = Ensures-guard _ _ _ λ _. Ensures-bind _ _ λ audience _.
    Ensures-bind _ _ λ compatibility _. Ensures-bind _ _ λ outcome e. Ensures-ok _ (
      subst IsStrict (ok-injective (sym (evaluate-eq-outcome _ _) ∙ e))
        (outcome-IsStrict audience payload.requested_review_mode))

placed-Reviewed :
    (cases : List ReviewCase) (id release_id p : ℕ) (payload : CreateRequest) (o : PolicyOutcome)
    (compatibility : Option String) (now : ℕ)
    → IsStrict o
    → Reviewed cases
        (placed (build_exposure id release_id p payload o compatibility) o.auto_activate now)
unfolding placed build_exposure
placed-Reviewed cases id release_id p payload o compatibility now h = ground arith

built-Reviewed :
    (cases : List ReviewCase) (id release_id p : ℕ) (payload : CreateRequest) (o : PolicyOutcome)
    (compatibility : Option String)
    → IsStrict o
    → Reviewed cases (build_exposure id release_id p payload o compatibility)
unfolding build_exposure
built-Reviewed cases id release_id p payload o compatibility h = ground arith

persist-IsSafe :
    (db : Db) (e : Exposure)
    → IsSafe db
    → Reviewed db.cases e
    → Ensures IsSafe (persist_new_exposure db e)
unfolding persist_new_exposure
persist-IsSafe db e s r =
    elim (Bool-cases (any (holds_place e.release_id e.audience_type) db.exposures)) [
      | inl taken ↦ record { at = λ db' q. cc (taken, q) }
      | inr free ↦
          rw (free, persist_new_exposure)
            (Ensures-ok _ (record { case_keys = s.case_keys; reviewed = (r, s.reviewed) }))
    ]

opened-IsSafe :
    (b : Bool) (db : Db) (e : Exposure) (p : ℕ) (m : ReviewMode)
    → IsSafe db
    → IsSafe (if b then (open_review_case db e p m).1 else db)
opened-IsSafe true db e p m s = open-IsSafe db e p m s
opened-IsSafe false db e p m s = s

audit_if-IsSafe :
    (b : Bool) (db : Db) (e : Exposure) (event_type : String) (caller : Caller)
    → IsSafe db
    → Ensures IsSafe (if b then audit_exposure db e event_type caller else ok db)
audit_if-IsSafe true db e event_type caller s = audit-IsSafe db e event_type caller s
audit_if-IsSafe false db e event_type caller s = Ensures-ok db s

pub create-IsSafe :
    (db : Db) (release_id : ℕ) (caller : Caller) (payload : CreateRequest) (now : ℕ)
    → IsSafe db
    → Ensures (λ r. IsSafe r.1) (create_exposure db release_id caller payload now)
unfolding create_exposure
create-IsSafe db release_id caller payload now s = Ensures-bind _ _ λ release _.
    Ensures-bind _ _ λ _ _. Ensures-bind _ _ λ resolved q.
      let id = next_id db.exposures in
      let p = caller.principal_id in
      let (o, compatibility) = resolved in
      let strict = (resolved-IsStrict db release payload).at resolved q in
      let e = build_exposure id release_id p payload o compatibility in
      Ensures-guard _ _ _ λ _. Ensures-bind _ _ λ db1 kept.
        let r = built-Reviewed db.cases id release_id p payload o compatibility strict in
        let s1 = (persist-IsSafe db e s r).at db1 kept in
        let s2 = opened-IsSafe (needs_case o.review_requirement) db1 e p o.review_requirement s1 in
        Ensures-bind _ _ λ db3 flushed.
          let db2 =
            if needs_case o.review_requirement
            then (open_review_case db1 e p o.review_requirement).1
            else db1 in
          let e' = placed e o.auto_activate now in
          let r' = placed-Reviewed db2.cases id release_id p payload o compatibility now strict in
          let s3 = (flush-IsSafe db2 e' s2 r').at db3 flushed in
          Ensures-bind _ _ λ db4 logged.
            let s4 = (audit-IsSafe db3 e' "exposure.created" caller s3).at db4 logged in
            Ensures-bind _ _ λ db5 logged'. Ensures-ok _ (
              (audit_if-IsSafe (is_active e'.state) db4 e' "exposure.activated" caller s4).at db5
                logged')
