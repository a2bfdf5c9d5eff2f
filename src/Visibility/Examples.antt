-- ===== src/Visibility/Examples.antt =====
-- Concrete runs of the visibility services, and the theorems at inputs that meet their hypotheses.
use infinitas_skill.Visibility.Publishing.{finish_materialization}
use infinitas_skill.Prelude.{
  ◌&&◌, is_some, Bool, true, false, none, some, List, [], ◌∷◌, not, any, map, ◌⊎◌, ◌≡◌, refl, All,
}
use infinitas_skill.Prelude.Text.{codes, lower, strip}
use infinitas_skill.Prelude.Result.{Result, ok, err, forbidden, Returns, ◌>>=◌}
use infinitas_skill.Prelude.Table.{get, put, latest, next_id}
use infinitas_skill.Visibility.Model.{
  Db, Release, Exposure, ReviewCase, of_request, AgentPublishIntent, pending, ready, private,
  public, blocking, Audience, grant, advisory, is_blocking, no_review, listed, enabled, active,
  revoked, review_open, opened, approved, approve, exposure_row, case_row, release_row,
}
use infinitas_skill.Visibility.Release.{create_or_get_release}
use infinitas_skill.Visibility.Policy.{derive_exposure_action_state}
use infinitas_skill.Visibility.Review.{
  decide, get_open_review_case_for_exposure, get_latest_review_case_for_exposure,
}
use infinitas_skill.Visibility.Exposure.{
  Caller, CreateRequest, create_exposure, activate_exposure, revoke_exposure, assert_reviewed,
  evaluate_create_policy,
}
use infinitas_skill.Visibility.Reviewing.{create_review_case, create_review_decision}
use infinitas_skill.Visibility.Safety.{IsSafe, approved_of, is_agent_published}
use infinitas_skill.Visibility.Safety.Calls.{create_policy_outcome}
use infinitas_skill.Visibility.History.{
  Request, agents, materialized, create, decision, revoke, open_case, serve_all,
  active_public-approved,
}
use infinitas_skill.Visibility.Laws.{
  can_activate-agrees, create_release_twice, approval_activates, case_state, is_ok,
}

abbrev ready_release : Release
ready_release = record {
  id = 1;
  skill_version_id = 1;
  skill_id = some 1;
  state = ready;
  manifest_artifact_id = some 1;
  bundle_artifact_id = some 2;
  signature_artifact_id = some 3;
  provenance_artifact_id = some 4;
  ready_at = some 50;
  canonical_runtime = none;
  created_by_principal_id = some 1;
}

abbrev pub start : Db
start = record {
  principals = (record { id = 1; slug = "alice" }) ∷ (record { id = 2; slug = "bob" }) ∷ [];
  teams = [];
  memberships = [];
  skills = (record { id = 1; namespace_id = 1; default_visibility_profile = some private }) ∷ [];
  versions = (record { id = 1; skill_id = 1 }) ∷ (record { id = 2; skill_id = 1 }) ∷ [];
  releases = ready_release ∷ [];
  exposures = [];
  policies = [];
  cases = [];
  decisions = [];
  audit = [];
  services = [];
  intents = [];
}

pub start-IsSafe : IsSafe start
start-IsSafe = record { case_keys = tt; reviewed = tt }

abbrev alice : Caller
alice = record { principal_id = 1; is_maintainer = false; audit_actor = none }

abbrev public_request : CreateRequest
public_request = record {
  audience_type = some public;
  listing_mode = listed;
  install_mode = enabled;
  requested_review_mode = no_review;
}

-- Alice asks for a public exposure and Bob, a maintainer, approves it.
abbrev pub approved_run : List Request
approved_run =
    create 1 alice public_request 100 ∷ decision 1 2 true (codes " Approve ") "fine" 200 ∷ []

-- An agent publishes a release when it is materialised, if its policy says so, and not otherwise.
abbrev agent_run : Bool → List Request
agent_run automatic =
    agents
      ((record { id = 1; principal_id = 2; is_active = true; auto_public_publish = automatic })
        ∷ [])
      ((record {
        id = 5;
        release_id = 1;
        principal_id = 2;
        state = pending;
        reason = "";
        activated_at = none;
      })
        ∷ [])
    ∷ materialized ready_release 1 2 3 4 (some 5) 100
    ∷ []

agent_run_active :
    map (λ (e : Exposure). e.state) (serve_all start (agent_run true)).exposures ≡ active ∷ []
unfolding serve_all finish_materialization ◌>>=◌ get put latest next_id
agent_run_active = refl

agent_run_suppressed :
    map (λ (i : AgentPublishIntent). i.reason) (serve_all start (agent_run false)).intents
    ≡ "auto public publish is disabled" ∷ []
unfolding serve_all finish_materialization ◌>>=◌ get put latest next_id
agent_run_suppressed = refl

-- Alice revokes her exposure, opens a second blocking case for it, and Bob approves that one.
abbrev reopened_run : List Request
reopened_run =
    create 1 alice public_request 100
    ∷ revoke 1 alice 150
    ∷ open_case 1 1 false (some blocking)
    ∷ decision 2 2 true (codes "approve") "" 200
    ∷ []

approved_run_active :
    map (λ (e : Exposure). e.state) (serve_all start approved_run).exposures ≡ active ∷ []
unfolding serve_all create_exposure create_review_decision ◌>>=◌ get put latest next_id lower strip
approved_run_active = refl

-- The revoked exposure is active again.
reopened_run_active :
    map (λ (e : Exposure). e.state) (serve_all start reopened_run).exposures ≡ active ∷ []
unfolding serve_all create_exposure create_review_decision create_review_case revoke_exposure ◌>>=◌
    get put latest next_id lower strip
reopened_run_active = refl

active_public-approved_example :
    All
      (λ (e : Exposure).
        e.audience_type ≡ public
        → e.state ≡ active
        → (any (approved_of e.id) (serve_all start approved_run).cases ≡ true)
          ⊎ (is_agent_published e.policy_snapshot ≡ true))
      (serve_all start approved_run).exposures
active_public-approved_example = active_public-approved start approved_run start-IsSafe

abbrev revoked_exposure : Exposure
revoked_exposure = record {
  id = 1;
  release_id = 1;
  audience_type = public;
  listing_mode = listed;
  install_mode = enabled;
  review_requirement = blocking;
  state = revoked;
  requested_by_principal_id = some 1;
  policy_snapshot = of_request (record {
    audience_type = public;
    requested_review_mode = blocking;
    review_requirement = blocking;
    platform_compatibility = none;
  });
  activated_at = none;
  ended_at = some 150;
}

abbrev waiting_exposure : Exposure
waiting_exposure = record revoked_exposure { state = review_open; ended_at = none }

abbrev open_blocking : ReviewCase
open_blocking = record {
  id = 2;
  exposure_id = 1;
  policy_id = some 1;
  mode = blocking;
  state = opened;
  opened_by_principal_id = some 1;
  closed_at = none;
}

abbrev revoked_db : Db
revoked_db = record start { exposures = revoked_exposure ∷ []; cases = open_blocking ∷ [] }

abbrev waiting_db : Db
waiting_db = record start {
  exposures = waiting_exposure ∷ [];
  cases = (record open_blocking { state = approved }) ∷ [];
}

-- The value of a result that is there
abbrev value : {A : Type 0} → A → Result A → A
value d (ok a) = a
value d (err e) = d

abbrev bob_decides : Result (ReviewCase × Exposure × Db)
bob_decides = create_review_decision revoked_db 2 2 true (codes "approve") "" 200

-- Alice may not decide on what she asked for.
alice_refused :
    create_review_decision revoked_db 2 1 true (codes "approve") "" 200
    ≡ err (forbidden "self-review is not allowed")
unfolding create_review_decision ◌>>=◌ get
alice_refused = refl

abbrev approved_db : Db
approved_db = record waiting_db {
  cases = (let c : ReviewCase = record open_blocking { state = approved } in c) ∷ [];
}

abbrev alice_activates : Result (Exposure × Db)
alice_activates = activate_exposure approved_db 1 alice 300

can_activate-agrees_example : is_ok (assert_reviewed waiting_db waiting_exposure) ≡ (
    (derive_exposure_action_state waiting_exposure.state waiting_exposure.review_requirement (
      case_state (get_latest_review_case_for_exposure waiting_db waiting_exposure.id))).can_activate
    && not (
        is_blocking waiting_exposure.review_requirement
        && is_some (get_open_review_case_for_exposure waiting_db waiting_exposure.id)))
can_activate-agrees_example = can_activate-agrees waiting_db waiting_exposure refl

create_release_twice_example :
    create_or_get_release start 1 1 false none ≡ ok (ready_release, false, start)
unfolding create_or_get_release get latest ◌>>=◌
create_release_twice_example =
    create_release_twice start 1 1 false none ready_release false start refl

approval_activates_example :
    Returns
      (λ r. (get 1 r.2.exposures ≡ some r.1) × (r.1.state ≡ active))
      (decide revoked_db 2 2 approve "" 200)
unfolding get
approval_activates_example =
    approval_activates revoked_db 2 2 "" 200 open_blocking revoked_exposure refl refl refl refl refl

create_policy_outcome_example :
    Returns
      (λ o.
        (o.audience_type ≡ grant)
        × (◌≡◌ {A = Audience} grant public → o.review_requirement ≡ blocking)
        × (◌≡◌ {A = Audience} grant grant → o.review_requirement ≡ advisory)
        × (o.auto_activate ≡ not (is_blocking o.review_requirement)))
      (evaluate_create_policy grant advisory)
create_policy_outcome_example = create_policy_outcome grant advisory
