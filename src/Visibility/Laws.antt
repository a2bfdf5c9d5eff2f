-- ===== src/Visibility/Laws.antt =====
-- What single calls of the visibility services do.
use infinitas_skill.Prelude.{
  ℕ, String, Bool, true, false, Option, none, some, List, ◌∷◌, any, ◌≡◌, ◌&&◌, not, refl, arith,
  ◌==◌, Option-cases, Bool-cases, inl, inr, if◌then◌else◌, sym, subst, is_some,
}
use infinitas_skill.Prelude.Result.{
  Result, ok, err, ◌>>=◌, Ensures, Ensures-bind, Ensures-ok, Returns,
}
use infinitas_skill.Prelude.Table.{get, latest, get-put_self, get-key}
use infinitas_skill.Visibility.Model.{
  Db, Skill, SkillVersion, Release, Exposure, ReviewCase, CaseState, ActorRef, active, is_open,
  is_blocking, is_active, approve, exposure_row, case_row, release_row,
}
use infinitas_skill.Visibility.Release.{
  create_or_get_release, new_release, get_skill_version_or_404, get_skill_or_404,
  assert_skill_owner,
}
use infinitas_skill.Visibility.Policy.{derive_exposure_action_state, is_waiting}
use infinitas_skill.Visibility.Review.{
  decide, flush_exposure, clashes, get_review_case_or_404, get_open_review_case_for_exposure,
  get_latest_review_case_for_exposure,
}
use infinitas_skill.Visibility.Exposure.{assert_reviewed}

abbrev pub is_ok {ℓ} : {A : Type ℓ} → Result A → Bool
is_ok (ok a) = true
is_ok (err e) = false

-- The state of a case, if there is one
abbrev pub case_state : Option ReviewCase → Option CaseState
case_state none = none
case_state (some c) = some c.state

-- In a state that waits for activation, the guards on the reviews let the activation through exactly if
-- the page offers it and, where the review blocks, no case is open; the page looks at the newest case
-- alone.
pub can_activate-agrees :
    (db : Db) (e : Exposure)
    → is_waiting e.state ≡ true
    → is_ok (assert_reviewed db e) ≡ (
        (derive_exposure_action_state e.state e.review_requirement
          (case_state (get_latest_review_case_for_exposure db e.id))).can_activate
        && not (
            is_blocking e.review_requirement
            && is_some (get_open_review_case_for_exposure db e.id)))
unfolding derive_exposure_action_state assert_reviewed
can_activate-agrees db e w = elim (Option-cases (get_latest_review_case_for_exposure db e.id)) [
  | inl n ↦ rw n (ground arith)
  | inr (c, n) ↦ rw n (ground arith)
]

abbrev of_version : ℕ → Release → Bool
of_version version_id r = r.skill_version_id == version_id

existing_returned :
    (db : Db) (version p : ℕ) (is_maintainer : Bool) (actor : Option ActorRef) (v : SkillVersion)
    (skill : Skill) (r : Release)
    → get_skill_version_or_404 db version ≡ ok v
    → get_skill_or_404 db v.skill_id ≡ ok skill
    → assert_skill_owner db skill p is_maintainer ≡ ok tt
    → latest (of_version v.id) db.releases ≡ some r
    → create_or_get_release db version p is_maintainer actor ≡ ok (r, false, db)
unfolding create_or_get_release ◌>>=◌
existing_returned db version p is_maintainer actor v skill r hv hs ho n =
    rw (hv, get_skill_version_or_404)
      (rw (hs, get_skill_or_404) (rw (ho, assert_skill_owner) (rw n refl)))

newest_found :
    (t : List Release) (i : ℕ) (r : Release)
    → r.skill_version_id ≡ i
    → latest (of_version i) t ≡ none
    → latest (of_version i) (r ∷ t) ≡ some r
unfolding latest
newest_found t i r e n = ground arith

created_twice :
    (db : Db) (version p : ℕ) (is_maintainer : Bool) (actor : Option ActorRef)
    → Ensures
        (λ t. create_or_get_release t.2 version p is_maintainer actor ≡ ok (t.0, false, t.2))
        (create_or_get_release db version p is_maintainer actor)
unfolding create_or_get_release
created_twice db version p is_maintainer actor = Ensures-bind _ _ λ v hv.
    Ensures-bind _ _ λ skill hs. Ensures-bind _ _ λ u ho.
      elim (Option-cases (latest (of_version v.id) db.releases)) [
        | inl n ↦ rw n (
            Ensures-ok _ (
              existing_returned _ version p is_maintainer actor v skill
                (new_release db v.id skill.id p) hv hs ho
                (newest_found db.releases v.id (new_release db v.id skill.id p) refl n)))
        | inr (old, n) ↦ rw n (
            Ensures-ok _
              (existing_returned db version p is_maintainer actor v skill old hv hs ho n))
      ]

-- Asking again for the release of a version gives the same release and changes nothing.
pub create_release_twice :
    (db : Db) (version p : ℕ) (is_maintainer : Bool) (actor : Option ActorRef) (r : Release)
    (fresh : Bool) (db' : Db)
    → create_or_get_release db version p is_maintainer actor ≡ ok (r, fresh, db')
    → create_or_get_release db' version p is_maintainer actor ≡ ok (r, false, db')
create_release_twice db version p is_maintainer actor r fresh db' h =
    (created_twice db version p is_maintainer actor).at (r, fresh, db') h

-- Approving an open case in blocking mode returns, and makes its exposure active whatever state the
-- exposure is in, revoked and rejected included, unless another open exposure has its place.
pub approval_activates :
    (db : Db) (case_id p : ℕ) (note : String) (now : ℕ) (c : ReviewCase) (e : Exposure)
    → get case_id db.cases ≡ some c
    → is_open c.state ≡ true
    → is_blocking c.mode ≡ true
    → get c.exposure_id db.exposures ≡ some e
    → any (clashes e) db.exposures ≡ false
    → Returns
        (λ r. (get e.id r.2.exposures ≡ some r.1) × (r.1.state ≡ active))
        (decide db case_id p approve note now)
unfolding decide ◌>>=◌
approval_activates db case_id p note now c e found o b there free =
    let k : e.id ≡ c.exposure_id = get-key c.exposure_id db.exposures e there in
    let there' = subst (λ i. get i db.exposures ≡ some e) (sym k) there in
    let e' : Exposure = record e {
      state = active;
      activated_at = if is_some e.activated_at then e.activated_at else some now;
    } in
    rw (found, get_review_case_or_404)
      (rw o (
        rw there (
          rw b (
            rw (free, flush_exposure)
              (elim (Bool-cases (is_active e.state)) [
                | inl a ↦ rw a (get-put_self e' e.id db.exposures e refl there', refl)
                | inr a ↦ rw a (get-put_self e' e.id db.exposures e refl there', refl)
              ])))))
