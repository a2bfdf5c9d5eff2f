-- ===== src/Promotion/Classified.antt =====
-- Which decisions count as approvals, and which groups they cover.
use infinitas_skill.Prelude.{
  append_assoc, append_nil, String, Bool, true, false, List, [], ◌∷◌, ◌++◌, ◌&&◌, ◌||◌, ◌≡◌, refl,
  sym, ap, subst, ◌∙◌, not, if◌then◌else◌, any, map, select, str_eq, eq_iff, is_some, Bool-cases,
  inl, inr, arith,
}
use infinitas_skill.Install.Model.{Dict, lookup}
use infinitas_skill.Install.Plan.{elem}
use infinitas_skill.Install.Visit.{elem-append}
use infinitas_skill.Promotion.Quorum.{ReviewEntry}
use infinitas_skill.Promotion.Evaluate.{
  Item, Classified, cover, make_item, classify_item, classify_decisions,
}

-- Covering adds the groups, and nothing else.
elem-cover :
    (g : String) (covered groups : List String)
    → elem g (cover covered groups) ≡ (elem g covered || elem g groups)
unfolding cover elem
elem-cover g covered [] = ground arith
elem-cover g covered (h ∷ groups) = elim (Bool-cases (elem h covered)) [
  | inr e ↦
      let next = elem-cover g (covered ++ h ∷ []) groups in
      ground (arith, e, next, elem-append g covered (h ∷ []))
  | inl e ↦
      let next = elem-cover g covered groups in
      elim (Bool-cases (str_eq h g)) [
        | inr f ↦ ground (arith, e, f, next)
        | inl f ↦
            let same = subst (λ x. elem x covered ≡ true) ((eq_iff h g).0 f) e in
            ground (arith, e, f, next, same)
      ]
]

module _ (reviewers : Dict (List String)) (owner : String)
    (require_distinct_owner owner_fallback_allowed : Bool) where
  -- Whether the owner may not review
  abbrev pub is_barred : String → Bool
  is_barred reviewer =
      str_eq reviewer owner && (require_distinct_owner && not owner_fallback_allowed)

  -- Whether a latest decision counts as an approval
  abbrev pub approves : String × ReviewEntry → Bool
  approves (reviewer, entry) =
      (is_some (lookup reviewer reviewers) && not (is_barred reviewer))
      && str_eq entry.decision "approved"

  abbrev pub item_of : String × ReviewEntry → Item
  item_of (reviewer, entry) =
      make_item reviewers owner require_distinct_owner owner_fallback_allowed reviewer entry

  -- Whether a latest decision counts as a rejection
  abbrev pub rejects : String × ReviewEntry → Bool
  rejects (reviewer, entry) =
      (is_some (lookup reviewer reviewers) && not (is_barred reviewer))
      && str_eq entry.decision "rejected"

  classify_item-approvals :
      (p : String × ReviewEntry) (c : Classified)
      → (classify_item reviewers owner require_distinct_owner owner_fallback_allowed
          (item_of p)
          c).approvals
        ≡ (if approves p then c.approvals ++ item_of p ∷ [] else c.approvals)
  unfolding classify_item make_item
  classify_item-approvals (reviewer, entry) c = ground arith

  classify_item-covered :
      (p : String × ReviewEntry) (c : Classified)
      → (classify_item reviewers owner require_distinct_owner owner_fallback_allowed
          (item_of p)
          c).covered_groups
        ≡ (if approves p then cover c.covered_groups (item_of p).groups else c.covered_groups)
  unfolding classify_item make_item
  classify_item-covered (reviewer, entry) c = ground arith

  -- The approvals are the items of the decisions that approve, in their order.
  pub classify_decisions-approvals :
      (latest : List (String × ReviewEntry)) (c : Classified)
      → (classify_decisions reviewers owner require_distinct_owner owner_fallback_allowed latest
          c).approvals
        ≡ c.approvals ++ map item_of (select approves latest)
  unfolding classify_decisions
  classify_decisions-approvals [] c = sym (append_nil c.approvals)
  classify_decisions-approvals (p ∷ latest) c =
      let next = classify_decisions-approvals latest (
        classify_item reviewers owner require_distinct_owner owner_fallback_allowed (item_of p)
          c) in
      let rest = map item_of (select approves latest) in
      next
      ∙ (ap (λ l. l ++ rest) (classify_item-approvals p c) ∙ elim (Bool-cases (approves p)) [
        | inl e ↦ rw e (append_assoc c.approvals (item_of p ∷ []) rest)
        | inr e ↦ rw e refl
      ])

  -- A group is covered exactly if an item that counts has it.
  pub classify_decisions-covered :
      (g : String) (latest : List (String × ReviewEntry)) (c : Classified)
      → elem g
          (classify_decisions reviewers owner require_distinct_owner owner_fallback_allowed latest
            c).covered_groups
        ≡ (elem g c.covered_groups
            || any (λ (i : Item). elem g i.groups) (map item_of (select approves latest)))
  unfolding classify_decisions
  classify_decisions-covered g [] c = ground arith
  classify_decisions-covered g (p ∷ latest) c =
      let next = classify_decisions-covered g latest (
        classify_item reviewers owner require_distinct_owner owner_fallback_allowed (item_of p)
          c) in
      let rest = any (λ (i : Item). elem g i.groups) (map item_of (select approves latest)) in
      next
      ∙ (ap (λ l. elem g l || rest) (classify_item-covered p c) ∙ elim (Bool-cases (approves p)) [
        | inl e ↦ rw e (ground (arith, elem-cover g c.covered_groups (item_of p).groups))
        | inr e ↦ rw e refl
      ])

  classify_item-rejections :
      (p : String × ReviewEntry) (c : Classified)
      → (classify_item reviewers owner require_distinct_owner owner_fallback_allowed
          (item_of p)
          c).rejections
        ≡ (if rejects p then c.rejections ++ item_of p ∷ [] else c.rejections)
  unfolding classify_item make_item
  classify_item-rejections (reviewer, entry) c =
      elim (Bool-cases (str_eq entry.decision "approved")) [
        | inl e ↦
            let other : str_eq entry.decision "rejected" ≡ false =
              subst (λ d. str_eq d "rejected" ≡ false)
                (sym ((eq_iff entry.decision "approved").0 e)) refl in
            ground (arith, e, other)
        | inr e ↦ ground (arith, e)
      ]

  -- The rejections are the items of the decisions that reject, in their order.
  pub classify_decisions-rejections :
      (latest : List (String × ReviewEntry)) (c : Classified)
      → (classify_decisions reviewers owner require_distinct_owner owner_fallback_allowed latest
          c).rejections
        ≡ c.rejections ++ map item_of (select rejects latest)
  unfolding classify_decisions
  classify_decisions-rejections [] c = sym (append_nil c.rejections)
  classify_decisions-rejections (p ∷ latest) c =
      let next = classify_decisions-rejections latest (
        classify_item reviewers owner require_distinct_owner owner_fallback_allowed (item_of p)
          c) in
      let rest = map item_of (select rejects latest) in
      next
      ∙ (ap (λ l. l ++ rest) (classify_item-rejections p c) ∙ elim (Bool-cases (rejects p)) [
        | inl e ↦ rw e (append_assoc c.rejections (item_of p ∷ []) rest)
        | inr e ↦ rw e refl
      ])
