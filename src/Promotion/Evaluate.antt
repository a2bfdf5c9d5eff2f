-- ===== src/Promotion/Evaluate.antt =====
-- src/infinitas_skill/policy/review_evaluation.py: which decisions count, and whether the gate passes.
use infinitas_skill.Prelude.{
  ℕ, String, Bool, List, [], ◌∷◌, ◌++◌, ◌&&◌, ◌||◌, ◌==◌, not, leb, ltb, if◌then◌else◌, select,
  length, str_eq, get_or, is_some,
}
use infinitas_skill.Prelude.Sort.{sort_by}
use infinitas_skill.Install.Model.{Dict, lookup}
use infinitas_skill.Install.Plan.{elem}
use infinitas_skill.Promotion.Quorum.{
  Quorum, Rule, ReviewEntry, effective_quorum_rule, configured_reviewers, latest_distinct_entries,
  owner_review_unavoidable, by_key,
}

pub data Reason : Type 0 where
  unconfigured_reviewer invalid_decision reviewer_is_owner : Reason

-- An item of the decisions; "counted" is that it has no reason against it.
pub record Item : Type 0 where
  pub reviewer : String
  pub decision : String
  pub groups : List String
  pub reasons : List Reason

pub record Classified : Type 0 where
  pub approvals : List Item
  pub rejections : List Item
  pub ignored : List Item
  pub covered_groups : List String

abbrev reason_if : Bool → Reason → List Reason
reason_if b r = if b then r ∷ [] else []

-- `covered_groups.extend(group for group in reviewer_groups if group not in covered_groups)`
unfoldable pub cover : List String → List String → List String
unfolding elem
cover covered [] = covered
cover covered (g ∷ groups) =
    if elem g covered then cover covered groups else cover (covered ++ g ∷ []) groups

module _ (reviewers : Dict (List String)) (owner : String)
    (require_distinct_owner owner_fallback_allowed : Bool) where
  unfoldable pub make_item : String → ReviewEntry → Item
  unfolding lookup
  make_item reviewer entry = record {
    reviewer = reviewer;
    decision = entry.decision;
    groups = get_or (lookup reviewer reviewers) [];
    reasons =
        reason_if (not (is_some (lookup reviewer reviewers))) unconfigured_reviewer
        ++ (reason_if (not (str_eq entry.decision "approved" || str_eq entry.decision "rejected"))
              invalid_decision
            ++ reason_if
                (str_eq reviewer owner && (require_distinct_owner && not owner_fallback_allowed))
                reviewer_is_owner);
  }

  -- The end of the loop of `_classify_decisions`
  unfoldable pub classify_item : Item → Classified → Classified
  unfolding cover
  classify_item item c = elim item.reasons [
    | _ ∷ _ ↦ record c { ignored = c.ignored ++ item ∷ [] }
    | [] ↦
        if str_eq item.decision "approved"
        then record c {
          approvals = c.approvals ++ item ∷ [];
          covered_groups = cover c.covered_groups item.groups;
        }
        else if str_eq item.decision "rejected"
        then record c { rejections = c.rejections ++ item ∷ [] }
        else c
  ]

  -- `_classify_decisions`, for decisions that are sorted
  unfoldable pub classify_decisions : Dict ReviewEntry → Classified → Classified
  unfolding make_item classify_item
  classify_decisions [] c = c
  classify_decisions ((reviewer, entry) ∷ latest) c =
      classify_decisions latest (classify_item (make_item reviewer entry) c)

abbrev pub nothing_classified : Classified
nothing_classified = record { approvals = []; rejections = []; ignored = []; covered_groups = [] }

pub data State : Type 0 where
  rejected approved under_review draft : State

-- `_effective_state`
unfoldable pub effective_state : ℕ → Bool → Bool → State
effective_state blocking_rejections gate_pass has_activity =
    if ltb 0 blocking_rejections
    then rejected
    else if gate_pass
    then approved
    else if has_activity
    then under_review
    else draft

-- The "reviews" of a policy
pub record ReviewsConfig : Type 0 where
  pub groups : Dict (List String)
  pub quorum : Quorum
  pub require_reviews_file : Bool
  pub reviewer_must_differ_from_owner : Bool
  pub allow_owner_when_no_distinct_reviewer : Bool
  pub block_on_rejection : Bool

-- What is read of a skill: its owner (empty when it has none), risk and stage, whether it has a
-- reviews.json, how many requests that holds, and the entries of decisions
pub record Subject : Type 0 where
  pub owner : String
  pub risk_level : String
  pub stage : String
  pub reviews_file_present : Bool
  pub request_count : ℕ
  pub entries : List ReviewEntry

pub record Evaluation : Type 0 where
  pub rule : Rule
  pub decisions : Classified
  pub missing_groups : List String
  pub quorum_met : Bool
  pub blocking_rejections : ℕ
  pub review_gate_pass : Bool
  pub effective_review_state : State

module _ (config : ReviewsConfig) (s : Subject) where
  unfoldable pub rule_of : Rule
  unfolding effective_quorum_rule
  rule_of = effective_quorum_rule config.quorum s.stage s.risk_level

  unfoldable pub owner_fallback : Bool
  unfolding rule_of owner_review_unavoidable configured_reviewers
  owner_fallback =
      config.allow_owner_when_no_distinct_reviewer
      && owner_review_unavoidable s.owner (configured_reviewers config.groups)
          rule_of.required_groups rule_of.min_approvals

  unfoldable pub decisions_of : Classified
  unfolding classify_decisions owner_fallback latest_distinct_entries configured_reviewers
  decisions_of =
      classify_decisions (configured_reviewers config.groups) s.owner
        config.reviewer_must_differ_from_owner owner_fallback
        (sort_by by_key (latest_distinct_entries s.entries)) nothing_classified

  -- `evaluate_review_state`
  unfoldable pub evaluate_review_state : Evaluation
  unfolding rule_of decisions_of effective_state elem
  evaluate_review_state =
      let missing =
        select (λ g. not (elem g decisions_of.covered_groups)) rule_of.required_groups in
      let quorum_met =
        leb rule_of.min_approvals (length decisions_of.approvals) && leb (length missing) 0 in
      let blocking = if config.block_on_rejection then length decisions_of.rejections else 0 in
      let gate_pass =
        (not config.require_reviews_file || s.reviews_file_present)
        && (quorum_met && blocking == 0) in
      record {
        rule = rule_of;
        decisions = decisions_of;
        missing_groups = missing;
        quorum_met = quorum_met;
        blocking_rejections = blocking;
        review_gate_pass = gate_pass;
        effective_review_state =
            effective_state blocking gate_pass (ltb 0 s.request_count || ltb 0 (length s.entries));
      }
