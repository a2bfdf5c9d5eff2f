-- ===== src/Promotion/Gate.antt =====
-- When a review passes: the evaluation against the decisions that count.
use infinitas_skill.Prelude.{
  ℕ, ◌≤◌, String, Bool, true, List, [], ◌∷◌, ◌&&◌, ◌||◌, ◌==◌, ◌≡◌, ◌↔◌, refl, sym, subst, ◌∙◌, not,
  leb, ltb, any, map, select, length, Bool-cases, inl, inr, arith, All, if◌then◌else◌,
}
use infinitas_skill.Prelude.Sort.{sort_by}
use infinitas_skill.Install.Plan.{elem}
use infinitas_skill.Promotion.Quorum.{
  ReviewEntry, configured_reviewers, latest_distinct_entries, by_key,
}
use infinitas_skill.Promotion.Evaluate.{
  Item, State, ReviewsConfig, Subject, rule_of, owner_fallback, decisions_of, evaluate_review_state,
  effective_state, nothing_classified,
}
use infinitas_skill.Promotion.Classified.{
  approves, rejects, item_of, classify_decisions-approvals, classify_decisions-covered,
  classify_decisions-rejections,
}

-- The latest decision of every reviewer, sorted
abbrev pub latest_of : Subject → List (String × ReviewEntry)
latest_of s = sort_by by_key (latest_distinct_entries s.entries)

effective_state-approved :
    (blocking : ℕ) (gate activity : Bool)
    → effective_state blocking gate activity ≡ State.approved
    → gate ≡ true
unfolding effective_state
effective_state-approved blocking gate activity h = elim (Bool-cases gate) [
  | inl e ↦ e
  | inr e ↦ elim (Bool-cases (ltb 0 blocking)) [
    | inl f ↦ absurd (cc (rw (f, effective_state) at h))
    | inr f ↦ elim (Bool-cases activity) [
      | inl a ↦ absurd (cc (rw (f, effective_state, e, a) at h))
      | inr a ↦ absurd (cc (rw (f, effective_state, e, a) at h))
    ]
  ]
]

effective_state_lem : (activity : Bool) → effective_state 0 true activity ≡ State.approved
unfolding effective_state
effective_state_lem activity = refl

-- The gate, for the numbers that it tests
gate_iff :
    (m a n r : ℕ) (required present blocks activity : Bool)
    → (effective_state
          (if blocks then r else 0)
          ((not required || present) && ((leb m a && leb n 0) && ((if blocks then r else 0) == 0)))
          activity
        ≡ State.approved)
      ↔ ((m ≤ a) × ((n ≤ 0) × ((required ≡ true → present ≡ true) × (blocks ≡ true → r ≤ 0))))
gate_iff m a n r required present blocks activity = (
  λ h.
      let gate = effective_state-approved _ _ activity h in
      (ground arith, (ground arith, ((λ q. ground arith), (λ q. ground arith)))),
  λ h.
      let (enough, (none_left, (file, unopposed))) = h in
      let blocking : (if blocks then r else 0) ≡ 0 = elim (Bool-cases blocks) [
        | inl e ↦ rw e (let u = unopposed e in omega arith)
        | inr e ↦ rw e refl
      ] in
      let file' : (not required || present) ≡ true = elim (Bool-cases required) [
        | inl e ↦ rw e (file e)
        | inr e ↦ rw e refl
      ] in
      let gate : ((not required || present)
            && ((leb m a && leb n 0) && ((if blocks then r else 0) == 0)))
          ≡ true =
        ground arith in
      rw gate (rw blocking (effective_state_lem activity)),
)

module _ (config : ReviewsConfig) (s : Subject) where
  -- The latest decisions that count as approvals, and as rejections
  abbrev pub approving : List Item
  approving =
      let reviewers = configured_reviewers config.groups in
      map
        (item_of reviewers s.owner config.reviewer_must_differ_from_owner (owner_fallback config s))
        (select
          (approves reviewers s.owner config.reviewer_must_differ_from_owner
            (owner_fallback config s))
          (latest_of s))

  abbrev pub rejecting : List Item
  rejecting =
      let reviewers = configured_reviewers config.groups in
      map
        (item_of reviewers s.owner config.reviewer_must_differ_from_owner (owner_fallback config s))
        (select
          (rejects reviewers s.owner config.reviewer_must_differ_from_owner
            (owner_fallback config s))
          (latest_of s))

  -- What it takes to be approved
  pub record IsApproved : Type 0 where
    pub enough : (rule_of config s).min_approvals ≤ length approving
    pub covers :
        All
          (λ g. any (λ (i : Item). elem g i.groups) approving ≡ true)
          (rule_of config s).required_groups
    pub has_file : config.require_reviews_file ≡ true → s.reviews_file_present ≡ true
    pub unopposed : config.block_on_rejection ≡ true → rejecting ≡ []

  pub decisions_of-approvals : (decisions_of config s).approvals ≡ approving
  unfolding decisions_of
  decisions_of-approvals = classify_decisions-approvals _ _ _ _ (latest_of s) nothing_classified

  decisions_of-rejections : (decisions_of config s).rejections ≡ rejecting
  unfolding decisions_of
  decisions_of-rejections = classify_decisions-rejections _ _ _ _ (latest_of s) nothing_classified

  decisions_of-covered :
      (g : String)
      → elem g (decisions_of config s).covered_groups
        ≡ any (λ (i : Item). elem g i.groups) approving
  unfolding decisions_of elem
  decisions_of-covered g = classify_decisions-covered _ _ _ _ g (latest_of s) nothing_classified

  none_missing :
      (l : List String)
      → length (select (λ g. not (elem g (decisions_of config s).covered_groups)) l) ≤ 0
      → All (λ g. any (λ (i : Item). elem g i.groups) approving ≡ true) l
  none_missing [] h = tt
  none_missing (g ∷ l) h = elim (Bool-cases (elem g (decisions_of config s).covered_groups)) [
    | inl e ↦ (sym (decisions_of-covered g) ∙ e, none_missing l (rw e at h))
    | inr e ↦ let h' = rw e at h in absurd (omega arith)
  ]

  all_covered :
      (l : List String)
      → All (λ g. any (λ (i : Item). elem g i.groups) approving ≡ true) l
      → length (select (λ g. not (elem g (decisions_of config s).covered_groups)) l) ≤ 0
  all_covered [] h = omega arith
  all_covered (g ∷ l) h = rw (decisions_of-covered g ∙ h.0) (all_covered l h.1)

  empty_list : (l : List Item) → length l ≤ 0 → l ≡ []
  empty_list [] h = refl
  empty_list (x ∷ l) h = absurd (omega arith)

  -- The effective state of a review is "approved" exactly if enough latest decisions approve, those
  -- cover every required group, the file of reviews is there where it is required, and no latest
  -- decision rejects where rejections block.
  pub approved-IsApproved :
      ((evaluate_review_state config s).effective_review_state ≡ State.approved) ↔ IsApproved
  unfolding evaluate_review_state effective_state
  approved-IsApproved =
      let required = (rule_of config s).required_groups in
      let missing = select (λ g. not (elem g (decisions_of config s).covered_groups)) required in
      let test =
        gate_iff (rule_of config s).min_approvals (length (decisions_of config s).approvals)
          (length missing) (length (decisions_of config s).rejections) config.require_reviews_file
          s.reviews_file_present config.block_on_rejection
          (ltb 0 s.request_count || ltb 0 (length s.entries)) in
      (
        λ h.
            let (enough, (none_left, (file, unopposed))) = test.0 h in
            record {
              enough =
                  subst (λ l. (rule_of config s).min_approvals ≤ length l) decisions_of-approvals
                    enough;
              covers = none_missing required none_left;
              has_file = file;
              unopposed = λ q.
                  sym decisions_of-rejections
                  ∙ empty_list (decisions_of config s).rejections (unopposed q);
            },
        λ a. test.1 (
          subst (λ l. (rule_of config s).min_approvals ≤ length l) (sym decisions_of-approvals)
              a.enough,
          (
            all_covered required a.covers,
            (
              a.has_file,
              (λ q.
                  subst (λ l. length l ≤ 0) (sym (decisions_of-rejections ∙ a.unopposed q))
                    (omega arith)),
            ),
          ),
        ),
      )
