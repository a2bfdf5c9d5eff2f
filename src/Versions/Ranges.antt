-- ===== src/Versions/Ranges.antt =====
-- What the caret and tilde ranges admit.
use infinitas_skill.Prelude.{
  ℕ, ◌+◌, ◌<◌, Bool, true, some, List, [], ◌∷◌, ◌++◌, ◌≡◌, refl, subst, ◌&&◌, ltb, if◌then◌else◌,
  arith, Bool-cases, ◌⊎◌, inl, inr,
}
use infinitas_skill.Prelude.Text.{Text, codes}
use infinitas_skill.Prelude.Order.{◌then◌}
use infinitas_skill.Versions.Semver.{
  SemVer, parse_semver, read_numeral, compare_versions, compare_semver, compare_prerelease,
}
use infinitas_skill.Versions.Decimal.{decimal, stops, read_numeral-decimal}
use infinitas_skill.Versions.Constraint.{
  ge, lt, Comparator, admits, satisfies_all, parse_token, caret_upper_bound, tilde_upper_bound,
}

abbrev pub release_of : ℕ → ℕ → ℕ → SemVer
release_of a b c = record { major = a; minor = b; patch = c; prerelease = [] }

-- The first version that a caret range of `p` leaves out
abbrev pub caret_limit : SemVer → SemVer
caret_limit p =
    if ltb 0 p.major
    then release_of (p.major + 1) 0 0
    else if ltb 0 p.minor
    then release_of 0 (p.minor + 1) 0
    else release_of 0 0 (p.patch + 1)

abbrev pub tilde_limit : SemVer → SemVer
tilde_limit p = release_of p.major (p.minor + 1) 0

-- From `p` on, and before the limit
abbrev pub within : SemVer → SemVer → SemVer → Bool
within q p limit = admits ge (compare_semver q p) && admits lt (compare_semver q limit)

append_nil : (s : Text) → s ++ [] ≡ s
append_nil [] = refl
append_nil (c ∷ s) = cc (append_nil s)

-- A release version written in decimal is read back as itself.
pub parse_semver-decimal :
    (a b c : ℕ)
    → parse_semver (decimal a ++ (codes "." ++ (decimal b ++ (codes "." ++ decimal c))))
      ≡ some (release_of a b c)
unfolding parse_semver stops
parse_semver-decimal a b c =
    let r =
      subst (λ s. read_numeral s ≡ some (c, [])) (append_nil (decimal c))
        (read_numeral-decimal c [] refl) in
    rw
      (
        read_numeral-decimal a (codes "." ++ (decimal b ++ (codes "." ++ decimal c))) refl,
        parse_semver,
      )
      (rw (read_numeral-decimal b (codes "." ++ decimal c) refl, parse_semver)
        (rw (r, parse_semver) refl))

-- The bounds that the code writes are versions, the limits of the ranges.
caret_upper_bound-limit :
    (base : Text) (p : SemVer)
    → parse_semver base ≡ some p
    → (upper : Text) × (caret_upper_bound base ≡ some upper)
      × (parse_semver upper ≡ some (caret_limit p))
unfolding caret_upper_bound decimal
caret_upper_bound-limit base p h = elim (Bool-cases (ltb 0 p.major)) [
  | inl e ↦ rw (h, caret_upper_bound, e) (_, refl, parse_semver-decimal (p.major + 1) 0 0)
  | inr e ↦ elim (Bool-cases (ltb 0 p.minor)) [
    | inl f ↦ rw (h, caret_upper_bound, e, f) (_, refl, parse_semver-decimal 0 (p.minor + 1) 0)
    | inr f ↦ rw (h, caret_upper_bound, e, f) (_, refl, parse_semver-decimal 0 0 (p.patch + 1))
  ]
]

tilde_upper_bound-limit :
    (base : Text) (p : SemVer)
    → parse_semver base ≡ some p
    → (upper : Text) × (tilde_upper_bound base ≡ some upper)
      × (parse_semver upper ≡ some (tilde_limit p))
unfolding tilde_upper_bound decimal
tilde_upper_bound-limit base p h =
    rw (h, tilde_upper_bound) (_, refl, parse_semver-decimal p.major (p.minor + 1) 0)

compare_parsed :
    (left right : Text) (a b : SemVer)
    → parse_semver left ≡ some a
    → parse_semver right ≡ some b
    → compare_versions left right ≡ some (compare_semver a b)
unfolding compare_versions
compare_parsed left right a b h k = rw (h, compare_versions, k) refl

satisfies_bounded :
    (version base upper : Text) (q p limit : SemVer)
    → parse_semver version ≡ some q
    → parse_semver base ≡ some p
    → parse_semver upper ≡ some limit
    → satisfies_all version
        (record { op = ge; version = base } ∷ record { op = lt; version = upper } ∷ [])
      ≡ some (within q p limit)
unfolding satisfies_all
satisfies_bounded version base upper q p limit hq hp hl =
    let b = compare_parsed version base q p hq hp in
    let u = compare_parsed version upper q limit hq hl in
    elim (Bool-cases (admits ge (compare_semver q p))) [
      | inl e ↦ elim (Bool-cases (admits lt (compare_semver q limit))) [
        | inl f ↦ rw (b, satisfies_all, e) (rw (u, satisfies_all, f) refl)
        | inr f ↦ rw (b, satisfies_all, e) (rw (u, satisfies_all, f) refl)
      ]
      | inr e ↦ rw (b, satisfies_all, e) refl
    ]

-- The token "^base", where both parse: the version passes exactly if it is not before the base and
-- before the next version that changes the leftmost nonzero of major, minor and patch, the latter if
-- all are zero.
pub caret-within :
    (version base : Text) (q p : SemVer)
    → parse_semver version ≡ some q
    → parse_semver base ≡ some p
    → (comparators : List Comparator) × (parse_token (b'^' ∷ base) ≡ some comparators)
      × (satisfies_all version comparators ≡ some (within q p (caret_limit p)))
unfolding parse_token
caret-within version base q p hq hp =
    let (upper, e, hu) = caret_upper_bound-limit base p hp in
    rw (e, parse_token) (_, refl, satisfies_bounded version base upper q p (caret_limit p) hq hp hu)

-- The token "~base", where both parse: the version passes exactly if it is not before the base and
-- before the next minor version.
pub tilde-within :
    (version base : Text) (q p : SemVer)
    → parse_semver version ≡ some q
    → parse_semver base ≡ some p
    → (comparators : List Comparator) × (parse_token (b'~' ∷ base) ≡ some comparators)
      × (satisfies_all version comparators ≡ some (within q p (tilde_limit p)))
unfolding parse_token
tilde-within version base q p hq hp =
    let (upper, e, hu) = tilde_upper_bound-limit base p hp in
    rw (e, parse_token) (_, refl, satisfies_bounded version base upper q p (tilde_limit p) hq hp hu)

-- A release that passes a caret range has the major version of its base, and the minor one too where
-- the major one is 0.
pub within_caret-compatible :
    (q p : SemVer)
    → q.prerelease ≡ []
    → within q p (caret_limit p) ≡ true
    → (q.major ≡ p.major) × ((0 < p.major) ⊎ (q.minor ≡ p.minor))
unfolding compare_semver compare_prerelease admits
within_caret-compatible q p h w = ground arith
