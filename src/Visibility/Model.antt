-- ===== src/Visibility/Model.antt =====
-- The tables behind visibility: server/modules/release/models.py, authoring/models.py,
-- identity/models.py, exposure/models.py, review/models.py and audit/models.py.
-- Times are seconds; a column that no operation here reads is left out.
use infinitas_skill.Prelude.{ℕ, String, Bool, true, false, Option, List, ◌==◌}
use infinitas_skill.Prelude.Table.{Row}

pub data Audience : Type 0 where
  private authenticated grant public : Audience

pub data ReviewMode : Type 0 where
  no_review advisory blocking : ReviewMode

pub data ListingMode : Type 0 where
  listed direct_only : ListingMode

pub data InstallMode : Type 0 where
  enabled disabled : InstallMode

pub data ReleaseState : Type 0 where
  preparing ready failed : ReleaseState

pub data ExposureState : Type 0 where
  draft pending_policy review_open active revoked rejected : ExposureState

pub data CaseState : Type 0 where
  opened approved turned_down closed : CaseState

pub data Decision : Type 0 where
  approve reject comment : Decision

pub record SkillVersion : Type 0 where
  pub id : ℕ
  pub skill_id : ℕ

pub record Skill : Type 0 where
  pub id : ℕ
  pub namespace_id : ℕ
  pub default_visibility_profile : Option Audience

pub record Principal : Type 0 where
  pub id : ℕ
  pub slug : String

pub record Team : Type 0 where
  pub id : ℕ
  pub principal_id : ℕ

pub record TeamMembership : Type 0 where
  pub id : ℕ
  pub user_id : ℕ
  pub team_id : ℕ

-- `canonical_runtime` is that key's `state` in `platform_compatibility_json`.
pub record Release : Type 0 where
  pub id : ℕ
  pub skill_version_id : ℕ
  pub skill_id : Option ℕ
  pub state : ReleaseState
  pub manifest_artifact_id : Option ℕ
  pub bundle_artifact_id : Option ℕ
  pub signature_artifact_id : Option ℕ
  pub provenance_artifact_id : Option ℕ
  pub ready_at : Option ℕ
  pub canonical_runtime : Option String
  pub created_by_principal_id : Option ℕ

-- The snapshot that `create_exposure` writes
pub record RequestSnapshot : Type 0 where
  pub audience_type : Audience
  pub requested_review_mode : ReviewMode
  pub review_requirement : ReviewMode
  pub platform_compatibility : Option String

-- `policy_snapshot_json`, as `create_exposure` writes it, and as `finalize_publish_intent` does: the
-- intent, and whether "auto_public_publish" of the agent's policy is true
pub data PolicySnapshot : Type 0 where
  of_request : RequestSnapshot → PolicySnapshot
  of_intent : ℕ → Bool → PolicySnapshot

pub record Exposure : Type 0 where
  pub id : ℕ
  pub release_id : ℕ
  pub audience_type : Audience
  pub listing_mode : ListingMode
  pub install_mode : InstallMode
  pub review_requirement : ReviewMode
  pub state : ExposureState
  pub requested_by_principal_id : Option ℕ
  pub policy_snapshot : PolicySnapshot
  pub activated_at : Option ℕ
  pub ended_at : Option ℕ

pub record ReviewPolicy : Type 0 where
  pub id : ℕ
  pub name : String
  pub version : String
  pub is_active : Bool

pub record ReviewCase : Type 0 where
  pub id : ℕ
  pub exposure_id : ℕ
  pub policy_id : Option ℕ
  pub mode : ReviewMode
  pub state : CaseState
  pub opened_by_principal_id : Option ℕ
  pub closed_at : Option ℕ

pub record ReviewDecision : Type 0 where
  pub id : ℕ
  pub review_case_id : ℕ
  pub reviewer_principal_id : Option ℕ
  pub decision : Decision
  pub note : String

-- `actor_ref_label` of shared/actor.py, and the labels written out in the services
pub data ActorLabel : Type 0 where
  by_principal : ℕ → ActorLabel
  by_actor : String → Option ℕ → ActorLabel
  system_worker : ActorLabel
  by_agent : ℕ → ActorLabel

-- The `payload` of an audit event, one constructor for each shape that the services write
pub data Payload : Type 0 where
  exposure_payload : Option ℕ → ℕ → ℕ → Audience → ExposureState → Payload
  case_opened : ℕ → ℕ → ℕ → ReviewMode → Payload
  decision_recorded : ℕ → ℕ → ℕ → Decision → CaseState → Payload
  release_payload : ℕ → ℕ → ℕ → Payload
  intent_payload : ℕ → ℕ → Payload

pub record AuditEvent : Type 0 where
  pub aggregate_type : String
  pub aggregate_id : ℕ
  pub event_type : String
  pub actor_ref : ActorLabel
  pub owner_principal_id : Option ℕ
  pub payload : Payload

-- An agent, of identity/models.py. Its policy is whether "auto_public_publish" is true in it.
pub record ServicePrincipal : Type 0 where
  pub id : ℕ
  pub principal_id : ℕ
  pub is_active : Bool
  pub auto_public_publish : Bool

pub data IntentState : Type 0 where
  pending activated suppressed : IntentState

pub record AgentPublishIntent : Type 0 where
  pub id : ℕ
  pub release_id : ℕ
  pub principal_id : ℕ
  pub state : IntentState
  pub reason : String
  pub activated_at : Option ℕ

pub record Db : Type 0 where
  pub principals : List Principal
  pub teams : List Team
  pub memberships : List TeamMembership
  pub skills : List Skill
  pub versions : List SkillVersion
  pub releases : List Release
  pub exposures : List Exposure
  pub policies : List ReviewPolicy
  pub cases : List ReviewCase
  pub decisions : List ReviewDecision
  pub audit : List AuditEvent
  pub services : List ServicePrincipal
  pub intents : List AgentPublishIntent

-- `ActorRef` of shared/actor.py
pub record ActorRef : Type 0 where
  pub principal : Principal
  pub is_maintainer : Bool
  pub credential_id : Option ℕ

instance abbrev pub principal_row : Row Principal
principal_row = record { key = λ a. a.id }

instance abbrev pub team_row : Row Team
team_row = record { key = λ a. a.id }

instance abbrev pub skill_row : Row Skill
skill_row = record { key = λ a. a.id }

instance abbrev pub version_row : Row SkillVersion
version_row = record { key = λ a. a.id }

instance abbrev pub release_row : Row Release
release_row = record { key = λ a. a.id }

instance abbrev pub exposure_row : Row Exposure
exposure_row = record { key = λ a. a.id }

instance abbrev pub policy_row : Row ReviewPolicy
policy_row = record { key = λ a. a.id }

instance abbrev pub case_row : Row ReviewCase
case_row = record { key = λ a. a.id }

instance abbrev pub decision_row : Row ReviewDecision
decision_row = record { key = λ a. a.id }

instance abbrev pub service_row : Row ServicePrincipal
service_row = record { key = λ a. a.id }

instance abbrev pub intent_row : Row AgentPublishIntent
intent_row = record { key = λ a. a.id }

-- Equality of the columns that the queries compare
abbrev audience_code : Audience → ℕ
audience_code private = 0
audience_code authenticated = 1
audience_code grant = 2
audience_code public = 3

abbrev pub same_audience : Audience → Audience → Bool
same_audience a b = audience_code a == audience_code b

abbrev mode_code : ReviewMode → ℕ
mode_code no_review = 0
mode_code advisory = 1
mode_code blocking = 2

abbrev pub same_mode : ReviewMode → ReviewMode → Bool
same_mode a b = mode_code a == mode_code b

abbrev pub is_public : Audience → Bool
is_public public = true
is_public _ = false

abbrev pub is_blocking : ReviewMode → Bool
is_blocking blocking = true
is_blocking _ = false

abbrev pub is_active : ExposureState → Bool
is_active active = true
is_active _ = false

-- `state in {"revoked", "rejected"}`
abbrev pub is_closed : ExposureState → Bool
is_closed revoked = true
is_closed rejected = true
is_closed _ = false

abbrev pub is_open : CaseState → Bool
is_open opened = true
is_open _ = false

abbrev pub is_approved : CaseState → Bool
is_approved approved = true
is_approved _ = false

abbrev pub is_ready : ReleaseState → Bool
is_ready ready = true
is_ready _ = false
