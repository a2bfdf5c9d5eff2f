-- ===== src/Versions/Semver.antt =====
-- Parsing and comparing versions. `none` is a `ValueError`. Digits are the ASCII ones.
use Prim.Native.Nat.{compare, Ordering}
use infinitas_skill.Prelude.{
  ℕ, ◌+◌, ◌-◌, ◌*◌, Bool, true, false, Option, none, some, List, [], ◌∷◌, ◌≡◌, refl, ◌&&◌, ◌||◌,
  not, ◌==◌, leb, if◌then◌else◌, all, map,
}
use infinitas_skill.Prelude.Text.{Text, codes, is_digit}
use infinitas_skill.Prelude.Order.{◌then◌, compare_list}

-- `PrereleasePart`
pub data PrereleasePart : Type 0 where
  number : ℕ → PrereleasePart
  words : Text → PrereleasePart

pub record SemVer : Type 0 where
  pub major : ℕ
  pub minor : ℕ
  pub patch : ℕ
  pub prerelease : List PrereleasePart

-- `int` of a run of digits
unfoldable pub digits_value : ℕ → Text → ℕ
digits_value acc [] = acc
digits_value acc (c ∷ s) = digits_value (acc * 10 + (c - b'0')) s

-- The longest prefix whose characters pass the test, and what follows
unfoldable pub span : (ℕ → Bool) → Text → Text × Text
span p [] = ([], [])
span p (c ∷ s) = let (run, rest) = span p s in if p c then (c ∷ run, rest) else ([], c ∷ s)

-- `0|[1-9]\d*`, on a whole run of digits
unfoldable pub is_numeral : Text → Bool
is_numeral [] = false
is_numeral (c ∷ []) = true
is_numeral (c ∷ d ∷ s) = not (c == b'0')

-- The value of a numeral and what follows it
unfoldable pub read_numeral : Text → Option (ℕ × Text)
unfolding is_digit span is_numeral digits_value
read_numeral s =
    let (run, rest) = span is_digit s in
    if is_numeral run then some (digits_value 0 run, rest) else none

-- The dot between numerals
unfoldable pub skip_dot : Text → Option Text
skip_dot [] = none
skip_dot (c ∷ s) = if c == b'.' then some s else none

-- `[0-9A-Za-z.-]`
unfoldable pub is_tag_char : ℕ → Bool
unfolding is_digit
is_tag_char c =
    is_digit c
    || ((leb b'A' c && leb c b'Z') || ((leb b'a' c && leb c b'z') || (c == b'.' || c == b'-')))

-- `$` matches at the end and before a newline at the end.
unfoldable pub at_end : Text → Bool
at_end [] = true
at_end (c ∷ []) = c == 10
at_end (c ∷ d ∷ s) = false

abbrev is_empty : Text → Bool
is_empty [] = true
is_empty (c ∷ s) = false

-- `(?:\+([0-9A-Za-z.-]+))?$`
unfoldable pub build_end : Text → Bool
unfolding span is_tag_char at_end
build_end [] = true
build_end (c ∷ s) =
    if c == b'+'
    then (let (tag, rest) = span is_tag_char s in not (is_empty tag) && at_end rest)
    else at_end (c ∷ s)

-- `(?:-([0-9A-Za-z.-]+))?` and the rest: the prerelease, empty where there is none
unfoldable pub prerelease_end : Text → Option Text
unfolding span is_tag_char build_end
prerelease_end [] = some []
prerelease_end (c ∷ s) =
    if c == b'-'
    then (let (tag, rest) = span is_tag_char s in
        if not (is_empty tag) && build_end rest then some tag else none)
    else if build_end (c ∷ s)
    then some []
    else none

-- `str.split(".")`
split_dots : Text → List Text
split_dots [] = [] ∷ []
split_dots (c ∷ s) =
    if c == b'.'
    then [] ∷ split_dots s
    else elim (split_dots s) [ [] ↦ (c ∷ []) ∷ [] | part ∷ parts ↦ (c ∷ part) ∷ parts ]

-- `int(part) if part.isdigit() else part`
prerelease_part : Text → PrereleasePart
unfolding digits_value is_digit
prerelease_part [] = words []
prerelease_part (c ∷ s) =
    if all is_digit (c ∷ s) then number (digits_value 0 (c ∷ s)) else words (c ∷ s)

prerelease_parts : Text → List PrereleasePart
unfolding split_dots prerelease_part
prerelease_parts [] = []
prerelease_parts (c ∷ s) = map prerelease_part (split_dots (c ∷ s))

-- `parse_semver`
unfoldable pub parse_semver : Text → Option SemVer
unfolding read_numeral skip_dot prerelease_end prerelease_parts
parse_semver version = elim (read_numeral version) [
  | none ↦ none
  | some (major, s₁) ↦ elim (skip_dot s₁) [
    | none ↦ none
    | some s₂ ↦ elim (read_numeral s₂) [
      | none ↦ none
      | some (minor, s₃) ↦ elim (skip_dot s₃) [
        | none ↦ none
        | some s₄ ↦ elim (read_numeral s₄) [
          | none ↦ none
          | some (patch, s₅) ↦ elim (prerelease_end s₅) [
            | none ↦ none
            | some tag ↦ some (record {
              major = major;
              minor = minor;
              patch = patch;
              prerelease = prerelease_parts tag;
            })
          ]
        ]
      ]
    ]
  ]
]

parse_semver_example :
    parse_semver (codes "1.20.3-rc.1+b7")
    ≡ some (record {
      major = 1;
      minor = 20;
      patch = 3;
      prerelease = words (codes "rc") ∷ number 1 ∷ [];
    })
unfolding parse_semver
parse_semver_example = refl

parse_semver_refused : parse_semver (codes "1.02.3") ≡ none
unfolding parse_semver
parse_semver_refused = refl

-- Two parts: equal, two integers, an integer before a text, two texts
unfoldable pub compare_part : PrereleasePart → PrereleasePart → Ordering
compare_part (number a) (number b) = compare a b
compare_part (number a) (words t) = Ordering.lt
compare_part (words s) (number b) = Ordering.gt
compare_part (words s) (words t) = compare_list compare s t

-- `compare_prerelease`: a version without a prerelease is the greatest.
unfoldable pub compare_prerelease : List PrereleasePart → List PrereleasePart → Ordering
unfolding compare_part compare_list
compare_prerelease [] [] = Ordering.eq
compare_prerelease [] (y ∷ r) = Ordering.gt
compare_prerelease (x ∷ l) [] = Ordering.lt
compare_prerelease (x ∷ l) (y ∷ r) = compare_list compare_part (x ∷ l) (y ∷ r)

-- `compare_versions`, once both are parsed
unfoldable pub compare_semver : SemVer → SemVer → Ordering
unfolding compare_prerelease
compare_semver a b =
    (compare a.major b.major then (compare a.minor b.minor then compare a.patch b.patch))
    then compare_prerelease a.prerelease b.prerelease

-- `compare_versions`
unfoldable pub compare_versions : Text → Text → Option Ordering
unfolding parse_semver compare_semver
compare_versions left right = elim (parse_semver left) [
  | none ↦ none
  | some a ↦ elim (parse_semver right) [ none ↦ none | some b ↦ some (compare_semver a b) ]
]
