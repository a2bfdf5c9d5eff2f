-- ===== src/Versions/Exact.antt =====
-- Exact constraints.
use Prim.Native.Nat.{Ordering}
use infinitas_skill.Prelude.{
  true, Option, some, List, [], ◌∷◌, ◌≡◌, refl, sym, ◌∙◌, subst, ap, inl, inr, Option-cases, arith,
}
use infinitas_skill.Prelude.Text.{Text}
use infinitas_skill.Prelude.Order.{Ordering-cases}
use infinitas_skill.Versions.Semver.{parse_semver, compare_versions, compare_semver}
use infinitas_skill.Versions.Order.{compare_semver-IsTotalOrder}
use infinitas_skill.Versions.Constraint.{
  Operator, eq, is_eq, is_exact, Comparator, admits, satisfies_all, parse_constraint_expression,
  constraint_is_exact, version_satisfies,
}

versions_tie :
    (left right : Text)
    → compare_versions left right ≡ some Ordering.eq
    → parse_semver left ≡ parse_semver right
unfolding compare_versions
versions_tie left right h = elim (Option-cases (parse_semver left)) [
  | inl e ↦ absurd (ground (arith, h))
  | inr (a, e) ↦ elim (Option-cases (parse_semver right)) [
    | inl f ↦ absurd (ground (arith, h))
    | inr (b, f) ↦
        let t : compare_semver a b ≡ Ordering.eq = ground (arith, h) in
        cc (e, f, compare_semver-IsTotalOrder.ties a b t)
  ]
]

op_is_eq : (op : Operator) → is_eq op ≡ true → op ≡ eq
op_is_eq eq h = refl
op_is_eq _ h = absurd (cc h)

admits_eq :
    (version base : Text)
    → satisfies_all version (record { op = eq; version = base } ∷ []) ≡ some true
    → compare_versions version base ≡ some Ordering.eq
unfolding satisfies_all admits
admits_eq version base h = elim (Option-cases (compare_versions version base)) [
  | inl e ↦ absurd (ground (arith, h))
  | inr (o, e) ↦ elim (Ordering-cases o) [
    | inl l ↦ absurd (ground (arith, h))
    | inr (inl l) ↦ cc (e, l)
    | inr (inr l) ↦ absurd (ground (arith, h))
  ]
]

exact_passes :
    (version : Text) (cs : List Comparator)
    → is_exact cs ≡ true
    → satisfies_all version cs ≡ some true
    → (c : Comparator) × (cs ≡ c ∷ []) × (parse_semver version ≡ parse_semver c.version)
exact_passes version [] h k = absurd (cc h)
exact_passes version (c ∷ d ∷ cs) h k = absurd (cc h)
exact_passes version (c ∷ []) h k =
    let e = op_is_eq c.op h in
    let one : c ≡ (record { op = eq; version = c.version }) = cc e in
    (
      c,
      refl,
      versions_tie version c.version (
          admits_eq version c.version
            (subst (λ (x : Comparator). satisfies_all version (x ∷ []) ≡ some true) one k)),
    )

-- Versions that satisfy one exact constraint are the same version: they differ at most in their build
-- part.
pub exact_unique :
    (version version' : Text) (expression : Option Text)
    → constraint_is_exact expression ≡ some true
    → version_satisfies version expression ≡ some true
    → version_satisfies version' expression ≡ some true
    → parse_semver version ≡ parse_semver version'
unfolding constraint_is_exact version_satisfies
exact_unique version version' expression x h h' =
    elim (Option-cases (parse_constraint_expression expression)) [
      | inl e ↦ absurd (ground (arith, x))
      | inr (cs, e) ↦
          let x' : is_exact cs ≡ true = ground (arith, x) in
          let s : satisfies_all version cs ≡ some true = ground (arith, h) in
          let s' : satisfies_all version' cs ≡ some true = ground (arith, h') in
          let (c, a, p) = exact_passes version cs x' s in
          let (c', a', p') = exact_passes version' cs x' s' in
          let same : c ≡ c' = ground (arith, a, a') in
          p ∙ (ap (λ (x : Comparator). parse_semver x.version) same ∙ sym p')
    ]
