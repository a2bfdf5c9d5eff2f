-- ===== src/Promotion/Examples.antt =====
-- The review of a skill under a policy with two groups.
use infinitas_skill.Prelude.{
  ◌≢◌, false, ℕ, String, true, none, some, List, [], ◌∷◌, ◌≡◌, ◌↔◌, refl, map,
}
use infinitas_skill.Prelude.Sort.{sort_by}
use infinitas_skill.Install.Plan.{elem}
use infinitas_skill.Install.Visit.{IsDistinct}
use infinitas_skill.Install.Model.{lookup}
use infinitas_skill.Promotion.Quorum.{latest_distinct_entries, ReviewEntry}
use infinitas_skill.Promotion.Evaluate.{
  ReviewsConfig, Subject, State, Item, evaluate_review_state, decisions_of,
}
use infinitas_skill.Promotion.Gate.{IsApproved, approved-IsApproved}
use infinitas_skill.Promotion.Latest.{latest_for, latest_distinct_entries-latest_for}
use infinitas_skill.Promotion.Distinct.{decisions_of-IsDistinct}
use infinitas_skill.Promotion.Unavoidable.{decisions_of-unavoidable}

abbrev config : ReviewsConfig
config = record {
  groups = ("security", "ann" ∷ "bob" ∷ []) ∷ ("platform", "bob" ∷ "cid" ∷ []) ∷ [];
  quorum = record {
    defaults = record { min_approvals = some 1; required_groups = none };
    stage_overrides =
        ("active", record { min_approvals = some 2; required_groups = some ("platform" ∷ []) })
        ∷ [];
    risk_overrides = [];
    stage_risk_overrides =
        ("active", ("high", record { min_approvals = some 3; required_groups = none }) ∷ []) ∷ [];
  };
  require_reviews_file = true;
  reviewer_must_differ_from_owner = true;
  allow_owner_when_no_distinct_reviewer = true;
  block_on_rejection = true;
}

abbrev entry : String → String → ℕ → ReviewEntry
entry reviewer decision at = record { reviewer = some reviewer; decision = decision; at = some at }

abbrev subject : String → String → List ReviewEntry → Subject
subject owner risk_level entries = record {
  owner = owner;
  risk_level = risk_level;
  stage = "active";
  reviews_file_present = true;
  request_count = 1;
  entries = entries;
}

-- Bob has rejected first and approves later.
abbrev reviewed : Subject
reviewed =
    subject "ann" "medium"
      (entry "bob" "approved" 30 ∷ entry "bob" "rejected" 20 ∷ entry "cid" "approved" 10 ∷ [])

-- Three approvals are required of three reviewers, one of them the owner.
abbrev owned : Subject
owned = subject "ann" "high" (entry "ann" "approved" 30 ∷ entry "bob" "approved" 20 ∷ [])

is_approved : (evaluate_review_state config reviewed).effective_review_state ≡ State.approved
unfolding evaluate_review_state sort_by
is_approved = refl

approved-IsApproved_example :
    ((evaluate_review_state config reviewed).effective_review_state ≡ State.approved)
    ↔ IsApproved config reviewed
approved-IsApproved_example = approved-IsApproved config reviewed

decisions_of-IsDistinct_example :
    IsDistinct (map (λ (i : Item). i.reviewer) (decisions_of config reviewed).approvals)
decisions_of-IsDistinct_example = decisions_of-IsDistinct config reviewed

owner_counts :
    elem "ann" (map (λ (i : Item). i.reviewer) (decisions_of config owned).approvals) ≡ true
unfolding decisions_of elem sort_by
owner_counts = refl

-- The same skill without decisions
abbrev nobody : Subject
nobody = record owned { entries = [] }

no_owner :
    elem "ann" (map (λ (i : Item). i.reviewer) (decisions_of config nobody).approvals) ≡ false
unfolding decisions_of elem sort_by
no_owner = refl

decisions_of-unavoidable_example :
    (config.allow_owner_when_no_distinct_reviewer ≡ true)
    × ((evaluate_review_state config nobody).effective_review_state ≢ State.approved)
decisions_of-unavoidable_example =
    decisions_of-unavoidable config owned [] refl owner_counts no_owner

latest_distinct_entries-latest_for_example :
    lookup "bob" (latest_distinct_entries reviewed.entries) ≡ latest_for "bob" reviewed.entries
latest_distinct_entries-latest_for_example =
    latest_distinct_entries-latest_for "bob" reviewed.entries
