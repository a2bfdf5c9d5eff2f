-- ===== src/Versions/Constraint.antt =====
-- Constraint expressions: their tokens, the comparators they stand for, and the test of a version.
use Prim.Native.Nat.{Ordering}
use infinitas_skill.Prelude.{
  ℕ, ◌+◌, Bool, true, false, Option, none, some, List, [], ◌∷◌, ◌++◌, ◌≡◌, refl, not, ◌&&◌, ◌||◌,
  ◌==◌, ltb, map, if◌then◌else◌,
}
use infinitas_skill.Prelude.Text.{Text, codes, is_digit, is_space, strip, text_beq}
use infinitas_skill.Versions.Semver.{span, is_tag_char, skip_dot, parse_semver, compare_versions}
use infinitas_skill.Versions.Decimal.{decimal}

-- The operators of comparators
pub data Operator : Type 0 where
  le ge lt gt eq : Operator

abbrev pub is_eq : Operator → Bool
is_eq eq = true
is_eq _ = false

pub record Comparator : Type 0 where
  pub op : Operator
  pub version : Text

-- `caret_upper_bound`
unfoldable pub caret_upper_bound : Text → Option Text
caret_upper_bound version = elim (parse_semver version) [
  | none ↦ none
  | some parsed ↦ some (
      if ltb 0 parsed.major
      then decimal (parsed.major + 1) ++ codes ".0.0"
      else if ltb 0 parsed.minor
      then codes "0." ++ (decimal (parsed.minor + 1) ++ codes ".0")
      else codes "0.0." ++ decimal (parsed.patch + 1))
]

-- `tilde_upper_bound`
unfoldable pub tilde_upper_bound : Text → Option Text
tilde_upper_bound version = elim (parse_semver version) [
  | none ↦ none
  | some parsed ↦
      some (decimal parsed.major ++ (codes "." ++ (decimal (parsed.minor + 1) ++ codes ".0")))
]

abbrev is_empty : Text → Bool
is_empty [] = true
is_empty (c ∷ s) = false

-- `\d+`, and what follows
digits : Text → Option Text
unfolding is_digit span
digits s = let (run, rest) = span is_digit s in if is_empty run then none else some rest

-- `(?:[-+][A-Za-z0-9_.-]+)?$`
tag_end : Text → Bool
unfolding span is_tag_char
tag_end [] = true
tag_end (c ∷ s) =
    let (tag, rest) = span (λ d. is_tag_char d || d == b'_') s in
    (c == b'-' || c == b'+') && (not (is_empty tag) && is_empty rest)

after : Option Text → (Text → Option Text) → Option Text
after none f = none
after (some s) f = f s

-- The second group of `COMPARATOR_RE`; a token holds no newline.
unfoldable pub is_comparator_version : Text → Bool
unfolding digits tag_end after skip_dot
is_comparator_version s =
    elim (after (after (after (after (digits s) skip_dot) digits) skip_dot) digits) [
      | none ↦ false
      | some rest ↦ tag_end rest
    ]

-- The first group of `COMPARATOR_RE`, "=" where it is missing, and what follows
unfoldable pub read_operator : Text → Operator × Text
read_operator [] = (eq, [])
read_operator (c ∷ []) =
    if c == b'<'
    then (lt, [])
    else if c == b'>'
    then (gt, [])
    else if c == b'='
    then (eq, [])
    else (eq, c ∷ [])
read_operator (c ∷ d ∷ s) =
    if c == b'<'
    then (if d == b'=' then (le, s) else (lt, d ∷ s))
    else if c == b'>'
    then (if d == b'=' then (ge, s) else (gt, d ∷ s))
    else if c == b'='
    then (eq, d ∷ s)
    else (eq, c ∷ d ∷ s)

-- A base and the bound above it
bounded_by : Text → Option Text → Option (List Comparator)
bounded_by base none = none
bounded_by base (some upper) =
    some (record { op = ge; version = base } ∷ record { op = lt; version = upper } ∷ [])

-- A token that is neither "*", nor a caret or tilde range
comparator_token : Text → Option (List Comparator)
unfolding read_operator is_comparator_version
comparator_token token =
    let (op, version) = read_operator token in
    if is_comparator_version version
    then elim (parse_semver version) [
      | none ↦ none
      | some _ ↦ some (record { op = op; version = version } ∷ [])
    ]
    else none

-- The comparators of one token
unfoldable pub parse_token : Text → Option (List Comparator)
unfolding comparator_token bounded_by caret_upper_bound tilde_upper_bound
parse_token [] = none
parse_token (c ∷ base) =
    if text_beq (c ∷ base) (codes "*")
    then some []
    else if c == b'^'
    then bounded_by base (caret_upper_bound base)
    else if c == b'~'
    then bounded_by base (tilde_upper_bound base)
    else comparator_token (c ∷ base)

-- A character goes before the first token, and a space between tokens.
cut : ℕ → Text × List Text → Text × List Text
unfolding is_space
cut c (token, rest) =
    if is_space c then ([], if is_empty token then rest else token ∷ rest) else (c ∷ token, rest)

split_from : Text → Text × List Text
unfolding cut
split_from [] = ([], [])
split_from (c ∷ s) = cut c (split_from s)

-- `str.split()`
unfoldable pub split_words : Text → List Text
unfolding split_from
split_words s = let (token, rest) = split_from s in if is_empty token then rest else token ∷ rest

split_words_example : split_words (codes "  a bc  d") ≡ codes "a" ∷ codes "bc" ∷ codes "d" ∷ []
unfolding split_words
split_words_example = refl

unfoldable pub parse_tokens : List Text → Option (List Comparator)
unfolding parse_token
parse_tokens [] = some []
parse_tokens (token ∷ tokens) =
    let rest = parse_tokens tokens in
    elim (parse_token token) [
      | none ↦ none
      | some comparators ↦ elim rest [ none ↦ none | some more ↦ some (comparators ++ more) ]
    ]

-- `expression or "*"`
or_star : Option Text → Text
or_star none = codes "*"
or_star (some []) = codes "*"
or_star (some (c ∷ s)) = c ∷ s

-- `parse_constraint_expression`
unfoldable pub parse_constraint_expression : Option Text → Option (List Comparator)
unfolding parse_tokens or_star split_words strip
parse_constraint_expression expression =
    let expr = strip (or_star expression) in
    if is_empty expr || text_beq expr (codes "*")
    then some []
    else parse_tokens (split_words (map (λ c. if c == b',' then b' ' else c) expr))

-- The tests of the loop: whether a comparison lets the version pass
unfoldable pub admits : Operator → Ordering → Bool
admits eq Ordering.eq = true
admits gt Ordering.gt = true
admits ge Ordering.eq = true
admits ge Ordering.gt = true
admits lt Ordering.lt = true
admits le Ordering.lt = true
admits le Ordering.eq = true
admits _ _ = false

-- The loop of `version_satisfies`
unfoldable pub satisfies_all : Text → List Comparator → Option Bool
unfolding admits
satisfies_all version [] = some true
satisfies_all version (c ∷ rest) =
    let later = satisfies_all version rest in
    elim (compare_versions version c.version) [
      | none ↦ none
      | some comparison ↦ if admits c.op comparison then later else some false
    ]

-- `version_satisfies`
unfoldable pub version_satisfies : Text → Option Text → Option Bool
unfolding parse_constraint_expression satisfies_all
version_satisfies version expression = elim (parse_constraint_expression expression) [
  | none ↦ none
  | some comparators ↦ satisfies_all version comparators
]

version_satisfies_example :
    version_satisfies (codes "1.4.0") (some (codes ">=1.2.0, <2.0.0")) ≡ some true
unfolding version_satisfies parse_semver compare_versions
version_satisfies_example = refl

caret_example : version_satisfies (codes "0.3.0") (some (codes "^0.2.3")) ≡ some false
unfolding version_satisfies parse_semver compare_versions decimal
caret_example = refl

-- One comparator, and it is "="
abbrev pub is_exact : List Comparator → Bool
is_exact (c ∷ []) = is_eq c.op
is_exact _ = false

-- `constraint_is_exact`
unfoldable pub constraint_is_exact : Option Text → Option Bool
unfolding parse_constraint_expression
constraint_is_exact expression = elim (parse_constraint_expression expression) [
  | none ↦ none
  | some comparators ↦ some (is_exact comparators)
]
