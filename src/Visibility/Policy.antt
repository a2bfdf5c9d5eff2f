-- ===== src/Visibility/Policy.antt =====
-- server/modules/review/policy.py and server/modules/exposure/policy.py: which review an audience
-- needs, and which actions the web pages offer on an exposure.
use infinitas_skill.Prelude.{
  String, Bool, true, false, Option, none, some, not, if◌then◌else◌, [], ◌∷◌,
}
use infinitas_skill.Prelude.Text.{Text, codes, strip, lower, text_beq}
use infinitas_skill.Prelude.Result.{Result, ok, value_error, ◌>>=◌, require}
use infinitas_skill.Visibility.Model.{
  Audience, private, authenticated, grant, public, ReviewMode, no_review, advisory, blocking,
  ExposureState, pending_policy, review_open, active, revoked, rejected, CaseState, opened,
  approved, turned_down, is_blocking, is_closed,
}

pub record PolicyOutcome : Type 0 where
  pub audience_type : Audience
  pub requested_review_mode : ReviewMode
  pub review_requirement : ReviewMode
  pub auto_activate : Bool

unfoldable pub audience_label : Audience → String
audience_label private = "private"
audience_label authenticated = "authenticated"
audience_label grant = "grant"
audience_label public = "public"

unfoldable pub mode_label : ReviewMode → String
mode_label no_review = "none"
mode_label advisory = "advisory"
mode_label blocking = "blocking"

-- `requested in {"none", "advisory", "blocking"}`; an empty text stands for "none"
unfoldable pub read_mode : Text → Option ReviewMode
read_mode [] = some no_review
read_mode (c ∷ s) =
    if text_beq (c ∷ s) (codes "none")
    then some no_review
    else if text_beq (c ∷ s) (codes "advisory")
    then some advisory
    else if text_beq (c ∷ s) (codes "blocking")
    then some blocking
    else none

-- `audience in {"private", "grant", "public", "authenticated"}`
unfoldable pub read_audience : Text → Option Audience
read_audience s =
    if text_beq s (codes "private")
    then some private
    else if text_beq s (codes "grant")
    then some grant
    else if text_beq s (codes "public")
    then some public
    else if text_beq s (codes "authenticated")
    then some authenticated
    else none

-- The outcome once both words are known
unfoldable pub outcome_of : Audience → ReviewMode → PolicyOutcome
outcome_of public requested = record {
  audience_type = public;
  requested_review_mode = blocking;
  review_requirement = blocking;
  auto_activate = false;
}
outcome_of grant requested = record {
  audience_type = grant;
  requested_review_mode = requested;
  review_requirement = requested;
  auto_activate = not (is_blocking requested);
}
outcome_of audience requested = record {
  audience_type = audience;
  requested_review_mode = no_review;
  review_requirement = no_review;
  auto_activate = true;
}

-- `evaluate_exposure_policy`
unfoldable pub evaluate_exposure_policy : Text → Text → Result PolicyOutcome
unfolding read_mode read_audience outcome_of
evaluate_exposure_policy audience_type requested_review_mode = do
  let audience = lower (strip audience_type)
  let requested = lower (strip requested_review_mode)
  mode ← require (read_mode requested) (value_error "unsupported requested_review_mode")
  who ← require (read_audience audience) (value_error "unsupported audience_type")
  ok (outcome_of who mode)

pub record ActionState : Type 0 where
  pub can_activate : Bool
  pub can_revoke : Bool
  pub can_patch : Bool
  pub activation_block_reason : String

-- `state in {"active", "revoked", "rejected"}`
abbrev is_settled : ExposureState → Bool
is_settled active = true
is_settled revoked = true
is_settled rejected = true
is_settled _ = false

-- `state in {"pending_policy", "review_open"}`
abbrev pub is_waiting : ExposureState → Bool
is_waiting pending_policy = true
is_waiting review_open = true
is_waiting _ = false

abbrev can_be_revoked : ExposureState → Bool
can_be_revoked pending_policy = true
can_be_revoked review_open = true
can_be_revoked active = true
can_be_revoked _ = false

abbrev blocking_actions : ExposureState → Option CaseState → ActionState
blocking_actions state (some approved) = record {
  can_activate = true;
  can_revoke = can_be_revoked state;
  can_patch = not (is_closed state);
  activation_block_reason = "";
}
blocking_actions state (some opened) = record {
  can_activate = false;
  can_revoke = can_be_revoked state;
  can_patch = not (is_closed state);
  activation_block_reason = "blocking_review_open";
}
blocking_actions state (some turned_down) = record {
  can_activate = false;
  can_revoke = can_be_revoked state;
  can_patch = not (is_closed state);
  activation_block_reason = "blocking_review_rejected";
}
blocking_actions state other = record {
  can_activate = false;
  can_revoke = can_be_revoked state;
  can_patch = not (is_closed state);
  activation_block_reason = "blocking_review_unapproved";
}

-- `derive_exposure_action_state`; no case stands for the text "none"
unfoldable pub derive_exposure_action_state :
    ExposureState → ReviewMode → Option CaseState → ActionState
derive_exposure_action_state state review_requirement review_case_state =
    if is_settled state
    then record {
      can_activate = false;
      can_revoke = can_be_revoked state;
      can_patch = not (is_closed state);
      activation_block_reason = "";
    }
    else if is_blocking review_requirement
    then blocking_actions state review_case_state
    else record {
      can_activate = is_waiting state;
      can_revoke = can_be_revoked state;
      can_patch = not (is_closed state);
      activation_block_reason = "";
    }
