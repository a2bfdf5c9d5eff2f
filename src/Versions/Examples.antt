-- ===== src/Versions/Examples.antt =====
-- The theorems on versions at concrete inputs.
use infinitas_skill.Prelude.{List, [], ◌∷◌, ◌++◌, ◌≡◌, refl, true, some, ◌⊎◌, ◌<◌}
use infinitas_skill.Prelude.Text.{codes}
use infinitas_skill.Versions.Semver.{
  SemVer, parse_semver, number, words, compare_semver, compare_versions,
}
use infinitas_skill.Versions.Decimal.{decimal}
use infinitas_skill.Versions.Constraint.{
  admits, Comparator, parse_token, satisfies_all, version_satisfies, constraint_is_exact,
}
use infinitas_skill.Versions.Ranges.{
  release_of, caret_limit, tilde_limit, within, caret-within, tilde-within, within_caret-compatible,
  parse_semver-decimal,
}
use infinitas_skill.Versions.Exact.{exact_unique}

abbrev base : SemVer
base = release_of 0 2 3

abbrev candidate : SemVer
candidate = record {
  major = 0;
  minor = 2;
  patch = 10;
  prerelease = words (codes "rc") ∷ number 1 ∷ [];
}

parse_base : parse_semver (codes "0.2.3") ≡ some base
unfolding parse_semver
parse_base = refl

parse_candidate : parse_semver (codes "0.2.10-rc.1") ≡ some candidate
unfolding parse_semver
parse_candidate = refl

caret-within_example :
    (comparators : List Comparator) × (parse_token (codes "^0.2.3") ≡ some comparators)
    × (satisfies_all (codes "0.2.10-rc.1") comparators
        ≡ some (within candidate base (caret_limit base)))
caret-within_example =
    caret-within (codes "0.2.10-rc.1") (codes "0.2.3") candidate base parse_candidate parse_base

tilde-within_example :
    (comparators : List Comparator) × (parse_token (codes "~0.2.3") ≡ some comparators)
    × (satisfies_all (codes "0.2.10-rc.1") comparators
        ≡ some (within candidate base (tilde_limit base)))
tilde-within_example =
    tilde-within (codes "0.2.10-rc.1") (codes "0.2.3") candidate base parse_candidate parse_base

parse_semver-decimal_example :
    parse_semver (decimal 1 ++ (codes "." ++ (decimal 20 ++ (codes "." ++ decimal 3))))
    ≡ some (release_of 1 20 3)
parse_semver-decimal_example = parse_semver-decimal 1 20 3

within_caret-compatible_example :
    ((release_of 0 2 9).major ≡ base.major)
    × ((0 < base.major) ⊎ ((release_of 0 2 9).minor ≡ base.minor))
unfolding compare_semver admits
within_caret-compatible_example = within_caret-compatible (release_of 0 2 9) base refl refl

exact_unique_example : parse_semver (codes "1.2.3+a") ≡ parse_semver (codes "1.2.3")
unfolding constraint_is_exact version_satisfies compare_versions
exact_unique_example =
    exact_unique (codes "1.2.3+a") (codes "1.2.3") (some (codes "=1.2.3")) refl refl refl

-- A prerelease of the next major version passes the caret range of a version.
next_major : version_satisfies (codes "2.0.0-alpha") (some (codes "^1.2.3")) ≡ some true
unfolding version_satisfies compare_versions decimal
next_major = refl
