-- ===== src/Promotion/Unavoidable.antt =====
-- When the owner of a skill may review it.
use infinitas_skill.Prelude.{
  suc, ◌≤◌, String, Bool, true, false, List, [], ◌∷◌, ◌≡◌, ◌≢◌, refl, sym, ap, subst, ◌∙◌, not, ltb,
  any, map, select, length, str_eq, eq_iff, get_or, is_some, Bool-cases, inl, inr, arith, All,
  if◌then◌else◌,
}
use infinitas_skill.Install.Model.{Dict, lookup}
use infinitas_skill.Install.Plan.{elem}
use infinitas_skill.Install.Visit.{IsDistinct}
use infinitas_skill.Promotion.Quorum.{ReviewEntry, configured_reviewers, owner_review_unavoidable}
use infinitas_skill.Promotion.Evaluate.{
  Item, State, ReviewsConfig, Subject, owner_fallback, decisions_of, rule_of, evaluate_review_state,
  make_item,
}
use infinitas_skill.Promotion.Classified.{approves, item_of}
use infinitas_skill.Promotion.Gate.{
  latest_of, approving, decisions_of-approvals, approved-IsApproved,
}
use infinitas_skill.Promotion.Keys.{keys, select-IsDistinct, differ_sym}
use infinitas_skill.Promotion.Distinct.{reviewers-keys, selected_key, latest_of-IsDistinct}

length-map : {A B : Type 0} (g : A → B) (l : List A) → length (map g l) ≡ length l
length-map g [] = refl
length-map g (x ∷ l) = ap suc (length-map g l)

-- The list without the first `x`
remove : String → List String → List String
remove x [] = []
remove x (y ∷ l) = let rest = remove x l in if str_eq y x then l else y ∷ rest

length-remove :
    (x : String) (l : List String) → elem x l ≡ true → suc (length (remove x l)) ≡ length l
unfolding remove elem
length-remove x [] h = absurd (cc h)
length-remove x (y ∷ l) h = elim (Bool-cases (str_eq y x)) [
  | inl e ↦ rw e refl
  | inr e ↦ rw e (ap suc (length-remove x l (rw e at h)))
]

elem-remove :
    (x y : String) (l : List String)
    → str_eq x y ≡ false
    → elem y l ≡ true
    → elem y (remove x l) ≡ true
unfolding remove elem
elem-remove x y [] n h = absurd (cc h)
elem-remove x y (z ∷ l) n h = elim (Bool-cases (str_eq z x)) [
  | inl e ↦
      let n' : str_eq z y ≡ false = subst (λ k. str_eq k y ≡ false) (sym ((eq_iff z x).0 e)) n in
      rw e (rw n' at h)
  | inr e ↦ elim (Bool-cases (str_eq z y)) [
    | inl f ↦ rw (e, f) refl
    | inr f ↦ rw (e, f) (elem-remove x y l n (rw f at h))
  ]
]

All-remove :
    (x : String) (l m : List String)
    → elem x l ≡ false
    → All (λ y. elem y m ≡ true) l
    → All (λ y. elem y (remove x m) ≡ true) l
unfolding elem
All-remove x [] m n h = tt
All-remove x (y ∷ l) m n (h, hs) = elim (Bool-cases (str_eq y x)) [
  | inl e ↦ absurd (ground (arith, e, n))
  | inr e ↦
      let apart : str_eq x y ≡ false = differ_sym y x e in
      (elem-remove x y m apart h, All-remove x l m (rw e at n) hs)
]

-- Different members of a list are no more than it has.
pigeons : (l m : List String) → IsDistinct l → All (λ x. elem x m ≡ true) l → length l ≤ length m
pigeons [] m d h = omega arith
pigeons (x ∷ l) m (n, d) (h, hs) =
    omega (arith, length-remove x m h, pigeons l (remove x m) d (All-remove x l m n hs))

module _ (owner : String) where
  -- The reviewers other than the owner
  abbrev pub others : Dict (List String) → Dict (List String)
  others d = select (λ (p : String × List String). not (str_eq p.0 owner)) d

  configured-others :
      (r : String) (d : Dict (List String))
      → is_some (lookup r d) ≡ true
      → str_eq r owner ≡ false
      → elem r (keys (others d)) ≡ true
  unfolding lookup elem
  configured-others r [] h n = absurd (cc h)
  configured-others r ((k, v) ∷ d) h n = elim (Bool-cases (str_eq k r)) [
    | inl e ↦
        let n' : str_eq k owner ≡ false =
          subst (λ x. str_eq x owner ≡ false) (sym ((eq_iff k r).0 e)) n in
        rw (n', e) refl
    | inr e ↦
        let rest = configured-others r d (rw e at h) n in
        elim (Bool-cases (str_eq k owner)) [ inl o ↦ rw o rest | inr o ↦ rw (o, e) rest ]
  ]

  groups-others :
      (g r : String) (d : Dict (List String))
      → elem g (get_or (lookup r d) []) ≡ true
      → str_eq r owner ≡ false
      → any (λ (p : String × List String). elem g p.1) (others d) ≡ true
  unfolding lookup elem
  groups-others g r [] h n = absurd (cc h)
  groups-others g r ((k, v) ∷ d) h n = elim (Bool-cases (str_eq k r)) [
    | inl e ↦
        let n' : str_eq k owner ≡ false =
          subst (λ x. str_eq x owner ≡ false) (sym ((eq_iff k r).0 e)) n in
        let here = rw e at h in rw (n', here) refl
    | inr e ↦
        let rest = groups-others g r d (rw e at h) n in
        elim (Bool-cases (str_eq k owner)) [
          | inl o ↦ rw o rest
          | inr o ↦ rw o (ground (arith, rest))
        ]
  ]

  module _ (reviewers : Dict (List String)) (required fallback : Bool) where
    approvers-others :
        (latest : List (String × ReviewEntry))
        → elem owner (keys (select (approves reviewers owner required fallback) latest)) ≡ false
        → All
            (λ r. elem r (keys (others reviewers)) ≡ true)
            (keys (select (approves reviewers owner required fallback) latest))
    unfolding elem
    approvers-others [] n = tt
    approvers-others ((r, e) ∷ latest) n =
        elim (Bool-cases (approves reviewers owner required fallback (r, e))) [
          | inr a ↦ rw a (approvers-others latest (rw a at n))
          | inl a ↦
              let n' = rw a at n in
              let apart : str_eq r owner ≡ false = ground (arith, n') in
              let rest = approvers-others latest (ground (arith, n')) in
              rw a (configured-others r reviewers (ground (arith, a)) apart, rest)
        ]

    covered-others :
        (g : String) (latest : List (String × ReviewEntry))
        → elem owner (keys (select (approves reviewers owner required fallback) latest)) ≡ false
        → any
            (λ (i : Item). elem g i.groups)
            (map
              (item_of reviewers owner required fallback)
              (select (approves reviewers owner required fallback) latest))
          ≡ true
        → any (λ (p : String × List String). elem g p.1) (others reviewers) ≡ true
    unfolding elem make_item
    covered-others g [] n h = absurd (cc h)
    covered-others g ((r, e) ∷ latest) n h =
        elim (Bool-cases (approves reviewers owner required fallback (r, e))) [
          | inr a ↦ covered-others g latest (rw a at n) (rw a at h)
          | inl a ↦
              let n' = rw a at n in
              let h' = rw a at h in
              let apart : str_eq r owner ≡ false = ground (arith, n') in
              elim (Bool-cases (elem g (get_or (lookup r reviewers) []))) [
                | inl c ↦ groups-others g r reviewers c apart
                | inr c ↦ covered-others g latest (ground (arith, n')) (rw c at h')
              ]
        ]

  no_cover :
      (reviewers : Dict (List String)) (P : String → Type 0) (groups : List String)
      → any (λ g. not (any (λ (p : String × List String). elem g p.1) (others reviewers))) groups
        ≡ true
      → ((g : String)
          → P g
          → any (λ (p : String × List String). elem g p.1) (others reviewers) ≡ true)
      → All P groups
      → ⊥
  no_cover reviewers P [] h f l = absurd (cc h)
  no_cover reviewers P (g ∷ groups) h f (l, ls) =
      let covered = f g l in no_cover reviewers P groups (rw covered at h) f ls

approver_keys :
    (config : ReviewsConfig) (s : Subject)
    → map (λ (i : Item). i.reviewer) (decisions_of config s).approvals
      ≡ keys (
          select
            (approves
              (configured_reviewers config.groups)
              s.owner
              config.reviewer_must_differ_from_owner
              (owner_fallback config s))
            (latest_of s))
approver_keys config s =
    let reviewers = configured_reviewers config.groups in
    let required = config.reviewer_must_differ_from_owner in
    let fallback = owner_fallback config s in
    ap (λ l. map (λ (i : Item). i.reviewer) l) (decisions_of-approvals config s)
    ∙ reviewers-keys reviewers s.owner required fallback
        (select (approves reviewers s.owner required fallback) (latest_of s))

length-approving :
    (config : ReviewsConfig) (s : Subject)
    → length (approving config s)
      ≡ length (
          keys (
            select
              (approves
                (configured_reviewers config.groups)
                s.owner
                config.reviewer_must_differ_from_owner
                (owner_fallback config s))
              (latest_of s)))
length-approving config s =
    let reviewers = configured_reviewers config.groups in
    let required = config.reviewer_must_differ_from_owner in
    let fallback = owner_fallback config s in
    sym (length-map (λ (i : Item). i.reviewer) (approving config s))
    ∙ ap length (
        reviewers-keys reviewers s.owner required fallback
          (select (approves reviewers s.owner required fallback) (latest_of s)))

-- If the owner's review is unavoidable, no decisions of others get the skill approved.
unavoidable-not_approved :
    (config : ReviewsConfig) (s : Subject)
    → owner_review_unavoidable s.owner
        (configured_reviewers config.groups)
        (rule_of config s).required_groups
        (rule_of config s).min_approvals
      ≡ true
    → elem s.owner (map (λ (i : Item). i.reviewer) (decisions_of config s).approvals) ≡ false
    → (evaluate_review_state config s).effective_review_state ≢ State.approved
unfolding owner_review_unavoidable
unavoidable-not_approved config s u n h =
    let reviewers = configured_reviewers config.groups in
    let required = config.reviewer_must_differ_from_owner in
    let fallback = owner_fallback config s in
    let f = approves reviewers s.owner required fallback in
    let a = (approved-IsApproved config s).0 h in
    let away : elem s.owner (keys (select f (latest_of s))) ≡ false =
      subst (λ l. elem s.owner l ≡ false) (approver_keys config s) n in
    elim (Bool-cases (ltb (length (others s.owner reviewers)) (rule_of config s).min_approvals)) [
      | inl few ↦
          let distinct = select-IsDistinct f (latest_of s) (latest_of-IsDistinct s) in
          let bound =
            pigeons (keys (select f (latest_of s))) (keys (others s.owner reviewers)) distinct
              (approvers-others s.owner reviewers required fallback (latest_of s) away) in
          let same = length-map (λ (p : String × List String). p.0) (others s.owner reviewers) in
          absurd (ground (arith, few, bound, same, a.enough, length-approving config s))
      | inr enough ↦
          let uncovered : any
                (λ g.
                  not (any (λ (p : String × List String). elem g p.1) (others s.owner reviewers)))
                (rule_of config s).required_groups
              ≡ true =
            ground (arith, u, enough) in
          no_cover s.owner reviewers
            (λ g. any (λ (i : Item). elem g i.groups) (approving config s) ≡ true)
            (rule_of config s).required_groups uncovered
            (λ g c. covered-others s.owner reviewers required fallback g (latest_of s) away c)
            a.covers
    ]

-- Where reviewers must differ from the owner, an approval by the owner counts only if the policy allows
-- it and there is no way around it: whatever decisions the skill has instead, it is not approved
-- without an approval by the owner.
pub decisions_of-unavoidable :
    (config : ReviewsConfig) (s : Subject) (entries : List ReviewEntry)
    → config.reviewer_must_differ_from_owner ≡ true
    → elem s.owner (map (λ (i : Item). i.reviewer) (decisions_of config s).approvals) ≡ true
    → (let other : Subject = record s { entries = entries } in
        elem s.owner (map (λ (i : Item). i.reviewer) (decisions_of config other).approvals) ≡ false)
    → (config.allow_owner_when_no_distinct_reviewer ≡ true)
      × ((evaluate_review_state config (record s { entries = entries })).effective_review_state
          ≢ State.approved)
unfolding owner_fallback
decisions_of-unavoidable config s entries differ h n =
    let reviewers = configured_reviewers config.groups in
    let required = config.reviewer_must_differ_from_owner in
    let fallback = owner_fallback config s in
    let f = approves reviewers s.owner required fallback in
    let h' = subst (λ l. elem s.owner l ≡ true) (approver_keys config s) h in
    let (e, ok) = selected_key s.owner f (latest_of s) h' in
    let self : str_eq s.owner s.owner ≡ true = (eq_iff s.owner s.owner).1 refl in
    let allowed : owner_fallback config s ≡ true = ground (arith, ok, self, differ) in
    let u : owner_review_unavoidable s.owner (configured_reviewers config.groups)
          (rule_of config s).required_groups (rule_of config s).min_approvals
        ≡ true =
      ground (arith, allowed) in
    (ground (arith, allowed), unavoidable-not_approved config (record s { entries = entries }) u n)
