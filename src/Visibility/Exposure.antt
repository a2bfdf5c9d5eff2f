-- ===== src/Visibility/Exposure.antt =====
-- server/modules/exposure/service.py: creating, patching, activating and revoking exposures.
use Prim.Native.String.{◌++◌ as append}
use infinitas_skill.Prelude.{
  ℕ, String, Bool, true, false, Option, none, some, ◌∷◌, any, not, ◌&&◌, ◌||◌, ◌==◌, is_some,
  str_eq, if◌then◌else◌, get_or,
}
use infinitas_skill.Prelude.Text.{codes}
use infinitas_skill.Prelude.Result.{
  Result, Error, ok, err, not_found, conflict, ◌>>=◌, ◌>>◌, ensure, require,
}
use infinitas_skill.Prelude.Table.{get, next_id}
use infinitas_skill.Visibility.Model.{
  Db, Release, Exposure, ReviewCase, ReviewMode, Audience, ListingMode, InstallMode, ActorRef,
  ActorLabel, ExposureState, PolicySnapshot, of_request, of_intent, no_review, pending_policy,
  review_open, active, revoked, by_principal, exposure_payload, is_active, is_closed, is_blocking,
  is_approved, is_ready, is_public, same_audience, same_mode, release_row, skill_row, exposure_row,
}
use infinitas_skill.Visibility.Release.{
  append_audit_event, actor_ref_label, get_release_or_404, get_release_snapshot,
  assert_release_owner,
}
use infinitas_skill.Visibility.Policy.{
  PolicyOutcome, evaluate_exposure_policy, audience_label, mode_label,
}
use infinitas_skill.Visibility.Review.{
  open_review_case, close_review_case, get_open_review_case_for_exposure,
  get_latest_review_case_for_exposure, flush_exposure,
}

-- `ExposureCreateRequest` and `ExposurePatchRequest` of exposure/schemas.py
pub record CreateRequest : Type 0 where
  pub audience_type : Option Audience
  pub listing_mode : ListingMode
  pub install_mode : InstallMode
  pub requested_review_mode : ReviewMode

pub record PatchRequest : Type 0 where
  pub listing_mode : Option ListingMode
  pub install_mode : Option InstallMode
  pub requested_review_mode : Option ReviewMode

-- The caller: `actor_principal_id`, `is_maintainer` and `audit_actor`
pub record Caller : Type 0 where
  pub principal_id : ℕ
  pub is_maintainer : Bool
  pub audit_actor : Option ActorRef

unfoldable pub is_incompatible : Option String → Bool
is_incompatible none = false
is_incompatible (some s) = str_eq s "blocked" || (str_eq s "broken" || str_eq s "unsupported")

-- `_assert_public_compatibility`
unfoldable pub assert_public_compatibility : Release → Audience → Result (Option String)
unfolding is_incompatible
assert_public_compatibility release audience_type =
    if is_public audience_type && is_incompatible release.canonical_runtime
    then err (
        conflict (
          append "public visibility is blocked by canonical runtime compatibility state: "
            (get_or release.canonical_runtime "")))
    else ok release.canonical_runtime

unfoldable pub get_exposure_or_404 : Db → ℕ → Result Exposure
get_exposure_or_404 db exposure_id =
    require (get exposure_id db.exposures) (not_found "exposure not found")

-- `_resolve_audience_type`; a profile that is none of the four words reads as `none`.
unfoldable pub resolve_audience_type : Db → Release → Option Audience → Result Audience
resolve_audience_type db release (some requested) = ok requested
resolve_audience_type db release none = do
  skill_id ←
      require release.skill_id (conflict "audience_type is required for a release without a skill")
  skill ← require (get skill_id db.skills) (not_found "skill not found")
  require skill.default_visibility_profile
      (conflict "audience_type is required when the skill has no visibility profile")

-- `_evaluate_create_policy`: a `ValueError` becomes a `ConflictError`.
abbrev as_conflict {ℓ} : {A : Type ℓ} → Result A → Result A
as_conflict (ok a) = ok a
as_conflict (err (Error.value_error m)) = err (conflict m)
as_conflict (err e) = err e

unfoldable pub evaluate_create_policy : Audience → ReviewMode → Result PolicyOutcome
unfolding evaluate_exposure_policy audience_label mode_label
evaluate_create_policy audience_type requested_review_mode = as_conflict (
    evaluate_exposure_policy (codes (audience_label audience_type))
      (codes (mode_label requested_review_mode)))

-- `_resolve_create_policy`
unfoldable pub resolve_create_policy :
    Db → Release → CreateRequest → Result (PolicyOutcome × Option String)
unfolding resolve_audience_type assert_public_compatibility evaluate_create_policy
resolve_create_policy db release payload = do
  ensure (is_ready release.state) (conflict "only ready releases can be exposed")
  audience_type ← resolve_audience_type db release payload.audience_type
  compatibility ← assert_public_compatibility release audience_type
  outcome ← evaluate_create_policy audience_type payload.requested_review_mode
  ok (outcome, compatibility)

-- `_build_exposure`, with the key that the insertion gives it
unfoldable pub build_exposure : ℕ → ℕ → ℕ → CreateRequest → PolicyOutcome → Option String → Exposure
build_exposure id release_id actor_principal_id payload outcome compatibility = record {
  id = id;
  release_id = release_id;
  audience_type = outcome.audience_type;
  listing_mode = payload.listing_mode;
  install_mode = payload.install_mode;
  review_requirement = outcome.review_requirement;
  state = pending_policy;
  requested_by_principal_id = some actor_principal_id;
  policy_snapshot = of_request (record {
    audience_type = outcome.audience_type;
    requested_review_mode = outcome.requested_review_mode;
    review_requirement = outcome.review_requirement;
    platform_compatibility = compatibility;
  });
  activated_at = none;
  ended_at = none;
}

abbrev caller_label : Caller → ActorLabel
caller_label caller = elim caller.audit_actor [
  | none ↦ by_principal caller.principal_id
  | some actor ↦ actor_ref_label actor
]

-- `_audit_exposure`
unfoldable pub audit_exposure : Db → Exposure → String → Caller → Result Db
unfolding get_release_or_404 get_release_snapshot append_audit_event
audit_exposure db exposure event_type caller = do
  release ← get_release_or_404 db exposure.release_id
  snapshot ← get_release_snapshot db release.id
  ok (
      append_audit_event db (record {
        aggregate_type = "exposure";
        aggregate_id = exposure.id;
        event_type = event_type;
        actor_ref = caller_label caller;
        owner_principal_id = some snapshot.skill.namespace_id;
        payload =
            exposure_payload release.skill_id release.id exposure.id exposure.audience_type
              exposure.state;
      }))

-- The query for an exposure that is not closed, of one release and audience
abbrev pub holds_place : ℕ → Audience → Exposure → Bool
holds_place release_id audience_type e =
    e.release_id == release_id
    && (same_audience e.audience_type audience_type && not (is_closed e.state))

-- `outcome.review_requirement in {"advisory", "blocking"}`
abbrev pub needs_case : ReviewMode → Bool
needs_case no_review = false
needs_case _ = true

-- The state that `create_exposure` gives the new exposure
unfoldable pub placed : Exposure → Bool → ℕ → Exposure
placed e auto_activate now =
    if auto_activate
    then record e { state = active; activated_at = some now }
    else record e { state = review_open }

-- The row is inserted in the same flush as the check of the unique index.
unfoldable pub persist_new_exposure : Db → Exposure → Result Db
persist_new_exposure db e =
    if any (holds_place e.release_id e.audience_type) db.exposures
    then err (
        conflict (
          append "active "
            (append (audience_label e.audience_type) " exposure already exists for this release")))
    else ok (record db { exposures = e ∷ db.exposures })

unfoldable pub create_exposure : Db → ℕ → Caller → CreateRequest → ℕ → Result (Exposure × Db)
unfolding get_release_or_404 assert_release_owner resolve_create_policy build_exposure
    audit_exposure persist_new_exposure open_review_case flush_exposure placed
create_exposure db release_id caller payload now = do
  release ← get_release_or_404 db release_id
  assert_release_owner db release caller.principal_id caller.is_maintainer
  (outcome, compatibility) ← resolve_create_policy db release payload
  ensure (not (any (holds_place release_id outcome.audience_type) db.exposures)) (
      conflict (
        append "active " (
          append (audience_label outcome.audience_type)
            " exposure already exists for this release")))
  let exposure =
      build_exposure (next_id db.exposures) release_id caller.principal_id payload outcome
        compatibility
  db1 ← persist_new_exposure db exposure
  let db2 =
      if needs_case outcome.review_requirement
      then (open_review_case db1 exposure caller.principal_id outcome.review_requirement).1
      else db1
  let exposure' = placed exposure outcome.auto_activate now
  db3 ← flush_exposure db2 exposure'
  db4 ← audit_exposure db3 exposure' "exposure.created" caller
  db5 ←
      if is_active exposure'.state
      then audit_exposure db4 exposure' "exposure.activated" caller
      else ok db4
  ok (exposure', db5)

unfoldable pub patched : Exposure → PatchRequest → Exposure
patched e payload = record e {
  listing_mode = get_or payload.listing_mode e.listing_mode;
  install_mode = get_or payload.install_mode e.install_mode;
}

-- `snapshot.get("requested_review_mode") or "none"`; the snapshot of an intent has no such key.
abbrev requested_mode : PolicySnapshot → ReviewMode
requested_mode (of_request snapshot) = snapshot.requested_review_mode
requested_mode (of_intent intent_id auto_public_publish) = no_review

abbrev keeps_review_mode : Exposure → Option ReviewMode → Bool
keeps_review_mode e none = true
keeps_review_mode e (some mode) = same_mode mode (requested_mode e.policy_snapshot)

unfoldable pub patch_exposure : Db → ℕ → Caller → PatchRequest → Result (Exposure × Db)
unfolding get_exposure_or_404 get_release_or_404 assert_release_owner flush_exposure audit_exposure
    patched
patch_exposure db exposure_id caller payload = do
  exposure ← get_exposure_or_404 db exposure_id
  release ← get_release_or_404 db exposure.release_id
  assert_release_owner db release caller.principal_id caller.is_maintainer
  ensure (not (is_closed exposure.state)) (conflict "closed exposure cannot be patched")
  ensure (keeps_review_mode exposure payload.requested_review_mode)
      (conflict "requested_review_mode cannot be changed after exposure creation")
  let exposure' = patched exposure payload
  db1 ← flush_exposure db exposure'
  db2 ← audit_exposure db1 exposure' "exposure.updated" caller
  ok (exposure', db2)

abbrev pub case_is_approved : Option ReviewCase → Bool
case_is_approved none = false
case_is_approved (some c) = is_approved c.state

-- The guards of `activate_exposure` on the reviews of the exposure
unfoldable pub assert_reviewed : Db → Exposure → Result (Unit {0})
unfolding get_open_review_case_for_exposure get_latest_review_case_for_exposure
assert_reviewed db exposure =
    if is_blocking exposure.review_requirement
    then if is_some (get_open_review_case_for_exposure db exposure.id)
      then err (conflict "blocking review must be resolved before activation")
      else ensure (case_is_approved (get_latest_review_case_for_exposure db exposure.id))
          (conflict "blocking review must be approved before activation")
    else ok tt

unfoldable pub activated : Exposure → ℕ → Exposure
activated e now = record e {
  state = active;
  activated_at = if is_some e.activated_at then e.activated_at else some now;
}

-- What `activate_exposure` does with an exposure that is neither active nor closed
unfoldable pub activate_waiting : Db → Release → Exposure → Caller → ℕ → Result (Exposure × Db)
unfolding assert_public_compatibility assert_reviewed flush_exposure audit_exposure activated
activate_waiting db release exposure caller now = do
  compatibility ← assert_public_compatibility release exposure.audience_type
  assert_reviewed db exposure
  let exposure' = activated exposure now
  db1 ← flush_exposure db exposure'
  db2 ← audit_exposure db1 exposure' "exposure.activated" caller
  ok (exposure', db2)

unfoldable pub activate_exposure : Db → ℕ → Caller → ℕ → Result (Exposure × Db)
unfolding get_exposure_or_404 get_release_or_404 assert_release_owner activate_waiting
activate_exposure db exposure_id caller now = do
  exposure ← get_exposure_or_404 db exposure_id
  release ← get_release_or_404 db exposure.release_id
  assert_release_owner db release caller.principal_id caller.is_maintainer
  if is_active exposure.state
      then ok (exposure, db)
      else if is_closed exposure.state
      then err (conflict "closed exposure cannot be re-activated")
      else activate_waiting db release exposure caller now

abbrev pub is_revoked : ExposureState → Bool
is_revoked revoked = true
is_revoked _ = false

unfoldable pub close_open_case : Db → ℕ → ℕ → Db
unfolding get_open_review_case_for_exposure close_review_case
close_open_case db exposure_id now = elim (get_open_review_case_for_exposure db exposure_id) [
  | none ↦ db
  | some review_case ↦ close_review_case db review_case now
]

unfoldable pub revoke_open : Db → Exposure → Caller → ℕ → Result (Exposure × Db)
unfolding flush_exposure audit_exposure close_open_case
revoke_open db exposure caller now = do
  let exposure' = let e : Exposure = record exposure { state = revoked; ended_at = some now } in e
  db1 ← flush_exposure (close_open_case db exposure.id now) exposure'
  db2 ← audit_exposure db1 exposure' "exposure.revoked" caller
  ok (exposure', db2)

unfoldable pub revoke_exposure : Db → ℕ → Caller → ℕ → Result (Exposure × Db)
unfolding get_exposure_or_404 get_release_or_404 assert_release_owner revoke_open
revoke_exposure db exposure_id caller now = do
  exposure ← get_exposure_or_404 db exposure_id
  release ← get_release_or_404 db exposure.release_id
  assert_release_owner db release caller.principal_id caller.is_maintainer
  if is_revoked exposure.state then ok (exposure, db) else revoke_open db exposure caller now
