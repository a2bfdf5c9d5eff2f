-- ===== src/Promotion/Quorum.antt =====
-- src/infinitas_skill/policy/reviews.py: reviewers, the quorum of a stage and a risk, and the latest
-- decision of each reviewer, for a policy that has been validated.
use Prim.Native.Nat.{Ordering}
use Prim.Native.String.{compare as str_compare}
use infinitas_skill.Prelude.{
  ℕ, suc, String, Bool, Option, none, some, List, [], ◌∷◌, ◌++◌, ◌&&◌, ◌||◌, ◌==◌, not, ltb, leb,
  if◌then◌else◌, any, map, select, length, str_eq, get_or,
}
use infinitas_skill.Prelude.Sort.{sort_by}
use infinitas_skill.Install.Model.{Dict, lookup, assign}
use infinitas_skill.Install.Matching.{unique}
use infinitas_skill.Install.Plan.{elem}

-- A rule as a policy writes it: fields that are absent are none.
pub record RawRule : Type 0 where
  pub min_approvals : Option ℕ
  pub required_groups : Option (List String)

-- What `normalize_quorum` returns
pub record Quorum : Type 0 where
  pub defaults : RawRule
  pub stage_overrides : Dict RawRule
  pub risk_overrides : Dict RawRule
  pub stage_risk_overrides : Dict (Dict RawRule)

pub record Rule : Type 0 where
  pub min_approvals : ℕ
  pub required_groups : List String

-- `apply` of `effective_quorum_rule`
unfoldable pub apply : Rule → RawRule → Rule
unfolding unique
apply rule raw = record {
  min_approvals = get_or raw.min_approvals rule.min_approvals;
  required_groups = elim raw.required_groups [
    | none ↦ rule.required_groups
    | some groups ↦ unique groups
  ];
}

-- `{}` as a rule
abbrev pub no_rule : RawRule
no_rule = record { min_approvals = none; required_groups = none }

-- `effective_quorum_rule`
unfoldable pub effective_quorum_rule : Quorum → String → String → Rule
unfolding apply lookup
effective_quorum_rule quorum stage risk_level =
    let first = apply (record { min_approvals = 0; required_groups = [] }) quorum.defaults in
    let staged = apply first (get_or (lookup stage quorum.stage_overrides) no_rule) in
    let risked = apply staged (get_or (lookup risk_level quorum.risk_overrides) no_rule) in
    apply risked
      (get_or (lookup risk_level (get_or (lookup stage quorum.stage_risk_overrides) [])) no_rule)

-- `reviewers.setdefault(reviewer, {"groups": []})["groups"].append(group_name)`
unfoldable pub add_reviewer : String → Dict (List String) → String → Dict (List String)
unfolding lookup assign
add_reviewer group_name reviewers reviewer =
    assign reviewer (get_or (lookup reviewer reviewers) [] ++ group_name ∷ []) reviewers

add_group : String → List String → Dict (List String) → Dict (List String)
unfolding add_reviewer
add_group group_name [] reviewers = reviewers
add_group group_name (r ∷ members) reviewers =
    add_group group_name members (add_reviewer group_name reviewers r)

add_groups : Dict (List String) → Dict (List String) → Dict (List String)
unfolding add_group
add_groups [] reviewers = reviewers
add_groups ((name, members) ∷ groups) reviewers =
    add_groups groups (add_group name members reviewers)

-- The reviewers of `configured_reviewers` with their groups, from groups with their resolved members
unfoldable pub configured_reviewers : Dict (List String) → Dict (List String)
unfolding add_groups unique
configured_reviewers groups =
    map (λ (p : String × List String). (p.0, unique p.1)) (add_groups groups [])

-- An entry of reviews.json or of the review evidence: `reviewer` is none when it is no text or blank,
-- `at` when it is no timestamp, else the seconds since 1970.
pub record ReviewEntry : Type 0 where
  pub reviewer : Option String
  pub decision : String
  pub at : Option ℕ

-- The rank of an entry: its time, at least `MIN_TIME`, and its index
abbrev pub Rank : Type 0
Rank = ℕ × ℕ

-- `a >= b` on ranks
abbrev pub rank_geb : ℕ × ℕ → ℕ × ℕ → Bool
rank_geb (t, i) (u, j) = ltb u t || (u == t && leb j i)

-- The body of the loop of `latest_distinct_entries`, for an entry with a reviewer
unfoldable pub store_for :
    String → ℕ → ReviewEntry → Dict ((ℕ × ℕ) × ReviewEntry) → Dict ((ℕ × ℕ) × ReviewEntry)
unfolding lookup assign
store_for r index e latest =
    let mark : ℕ × ℕ = (get_or e.at 0, index) in
    let replaced = assign r (mark, e) latest in
    elim (lookup r latest) [
      | none ↦ replaced
      | some stored ↦ if rank_geb mark stored.0 then replaced else latest
    ]

unfoldable pub store_entry :
    Option String → ℕ → ReviewEntry → Dict ((ℕ × ℕ) × ReviewEntry) → Dict ((ℕ × ℕ) × ReviewEntry)
unfolding store_for
store_entry none index e latest = latest
store_entry (some r) index e latest = store_for r index e latest

-- The loop of `latest_distinct_entries`
unfoldable pub collect_latest :
    ℕ → List ReviewEntry → Dict ((ℕ × ℕ) × ReviewEntry) → Dict ((ℕ × ℕ) × ReviewEntry)
unfolding store_entry
collect_latest index [] latest = latest
collect_latest index (e ∷ entries) latest =
    collect_latest (suc index) entries (store_entry e.reviewer index e latest)

abbrev pub by_key {ℓ} : {A : Type ℓ} → String × A → String × A → Ordering
by_key a b = str_compare a.0 b.0

-- `latest_distinct_entries`
unfoldable pub latest_distinct_entries : List ReviewEntry → Dict ReviewEntry
unfolding collect_latest
latest_distinct_entries entries =
    map (λ (p : String × ((ℕ × ℕ) × ReviewEntry)). (p.0, p.1.1))
      (sort_by by_key (collect_latest 0 entries []))

-- `owner_review_unavoidable`
unfoldable pub owner_review_unavoidable : String → Dict (List String) → List String → ℕ → Bool
unfolding elem
owner_review_unavoidable owner reviewers required_groups min_approvals =
    let others = select (λ (p : String × List String). not (str_eq p.0 owner)) reviewers in
    not (str_eq owner "")
    && (ltb (length others) min_approvals
        || any (λ g. not (any (λ (p : String × List String). elem g p.1) others)) required_groups)
