-- ===== src/Install/Matching.antt =====
-- src/infinitas_skill/install/target_validation.py: which candidates meet requirements, in which order
-- they are tried, and which exclude each other. `none` is a `ValueError` of a version.
use Prim.Native.Nat.{Ordering, compare}
use Prim.Native.String.{compare as str_compare}
use infinitas_skill.Prelude.{
  ℕ, suc, ◌+◌, String, Bool, true, false, Option, none, some, List, [], ◌∷◌, ◌++◌, ◌&&◌, ◌||◌, not,
  ltb, str_eq, if◌then◌else◌, map, select, length,
}
use infinitas_skill.Prelude.Text.{Text, codes, text_beq}
use infinitas_skill.Prelude.Order.{◌then◌}
use infinitas_skill.Prelude.Sort.{sort_raising}
use infinitas_skill.Versions.Semver.{compare_versions}
use infinitas_skill.Versions.Constraint.{version_satisfies, constraint_is_exact}
use infinitas_skill.Install.Model.{
  Entry, Requirement, Candidate, Installed, Catalog, Dict, or_else, entry_key, candidate_key,
  lookup,
}

abbrev is_empty : Text → Bool
is_empty [] = true
is_empty (c ∷ s) = false

-- `version or default`
abbrev pub or_text : Text → Text → Text
or_text s t = if is_empty s then t else s

-- The tests of a loop in turn: the first that is true ends it, and so does an exception.
abbrev pub any_raising {ℓ} : {A : Type ℓ} → (A → Option Bool) → List A → Option Bool
any_raising p [] = some false
any_raising p (x ∷ xs) = elim (p x) [
  | none ↦ none
  | some true ↦ some true
  | some false ↦ any_raising p xs
]

abbrev pub all_raising {ℓ} : {A : Type ℓ} → (A → Option Bool) → List A → Option Bool
all_raising p [] = some true
all_raising p (x ∷ xs) = elim (p x) [
  | none ↦ none
  | some true ↦ all_raising p xs
  | some false ↦ some false
]

-- What `entry_matches_skill` reads of a candidate or an installed skill
pub record Skill : Type 0 where
  pub name : String
  pub publisher : String
  pub qualified_name : String
  pub registry_name : String
  pub version : Text

abbrev pub candidate_skill : Candidate → Skill
candidate_skill c = record {
  name = c.name;
  publisher = c.publisher;
  qualified_name = c.qualified_name;
  registry_name = c.registry_name;
  version = c.version;
}

-- An installed item has no "registry_name".
abbrev pub installed_skill : Installed → Skill
installed_skill i = record {
  name = i.name;
  publisher = i.publisher;
  qualified_name = i.qualified_name;
  registry_name = "";
  version = i.version;
}

names_skill : Entry → Skill → Bool
names_skill e s =
    if str_eq e.qualified_name ""
    then str_eq e.name s.name && (str_eq e.publisher "" || str_eq e.publisher s.publisher)
    else str_eq e.qualified_name s.qualified_name

-- `entry_matches_skill`
unfoldable pub entry_matches_skill : Entry → Skill → Option Bool
unfolding names_skill
entry_matches_skill e s =
    if names_skill e s
      && ((str_eq e.registry "" || str_eq e.registry s.registry_name) && not (is_empty s.version))
    then version_satisfies s.version (some (or_text e.version (codes "*")))
    else some false

-- `unique`
unfoldable pub unique : List String → List String
unique [] = []
unique (x ∷ xs) = let rest = unique xs in x ∷ select (λ y. not (str_eq y x)) rest

-- The registries that requirements name
hints : List Requirement → List String
unfolding unique
hints constraints =
    unique
      (select (λ r. not (str_eq r "")) (map (λ (q : Requirement). q.entry.registry) constraints))

-- `constraints_compatible`
unfoldable pub constraints_compatible : List Requirement → Bool
unfolding hints
constraints_compatible constraints = not (ltb 1 (length (hints constraints)))

-- `installed_identity_matches`
unfoldable pub installed_identity_matches : Candidate → Option Installed → Bool
installed_identity_matches c none = false
installed_identity_matches c (some i) =
    let mine = or_else c.identity_key (or_else c.qualified_name c.name) in
    let other = or_else i.identity_key (or_else i.qualified_name i.name) in
    let version = or_text i.version i.locked_version in
    (str_eq mine "" || (str_eq other "" || str_eq mine other))
    && ((is_empty version || text_beq c.version version)
        && (str_eq i.source_registry "" || str_eq c.registry_name i.source_registry))

-- The tests of `candidate_satisfies_all` on one requirement
unfoldable pub satisfies : Candidate → Requirement → Option Bool
satisfies c q =
    if not (str_eq q.entry.registry "") && not (str_eq q.entry.registry c.registry_name)
    then some false
    else if str_eq c.stage "incubating" && not q.entry.allow_incubating
    then some false
    else elim (if str_eq c.stage "archived"
        then constraint_is_exact (some (or_text q.entry.version (codes "*")))
        else some true) [
          | none ↦ none
          | some false ↦ some false
          | some true ↦
              version_satisfies (or_text c.version (codes "0.0.0"))
                (some (or_text q.entry.version (codes "*")))
        ]

-- `candidate_satisfies_all`
unfoldable pub candidate_satisfies_all : Candidate → List Requirement → Option Bool
candidate_satisfies_all c [] = some c.installable
candidate_satisfies_all c (q ∷ constraints) =
    let rest = candidate_satisfies_all c constraints in
    elim (satisfies c q) [ none ↦ none | some false ↦ some false | some true ↦ rest ]

-- `preferred_registries`
unfoldable pub preferred_registries : List Requirement → Catalog → List String
unfolding hints unique
preferred_registries constraints catalog = elim (hints constraints) [
  | x ∷ xs ↦ x ∷ xs
  | [] ↦ unique (
      unique
        (select (λ r. not (str_eq r "")) (map (λ (q : Requirement). q.source_registry) constraints))
      ++ select (λ r. not (str_eq r "")) catalog.registries)
]

-- `preferred.index(name)`
index_of : String → List String → Option ℕ
index_of x [] = none
index_of x (y ∷ l) =
    let rest = index_of x l in
    if str_eq y x then some 0 else elim rest [ none ↦ none | some n ↦ some (suc n) ]

registry_rank : List String → Candidate → ℕ
unfolding index_of
registry_rank preferred c = elim (index_of c.registry_name preferred) [
  | some n ↦ n
  | none ↦ length preferred + c.registry_order
]

stage_rank : Bool → String → ℕ
stage_rank exact_only stage =
    if str_eq stage "active"
    then (if exact_only then 1 else 0)
    else if str_eq stage "incubating"
    then (if exact_only then 2 else 1)
    else if str_eq stage "archived"
    then (if exact_only then 0 else 2)
    else 9

abbrev rank : Bool → ℕ
rank b = if b then 0 else 1

-- `CandidateComparator.__call__`
unfoldable pub compare_candidates :
    List String → Option Installed → Bool → Candidate → Candidate → Option Ordering
unfolding registry_rank stage_rank installed_identity_matches
compare_candidates preferred installed exact_only left right =
    let first =
      compare (rank (installed_identity_matches left installed))
        (rank (installed_identity_matches right installed))
      then (compare (registry_rank preferred left) (registry_rank preferred right)
          then (compare (rank (str_eq left.source_type "distribution-manifest"))
                (rank (str_eq right.source_type "distribution-manifest"))
              then compare (stage_rank exact_only left.stage)
                  (stage_rank exact_only right.stage))) in
    let last =
      str_compare right.snapshot_created_at left.snapshot_created_at
      then (str_compare left.registry_name right.registry_name
          then (str_compare left.dir_name right.dir_name then str_compare left.path right.path)) in
    elim first [
      | Ordering.lt ↦ some Ordering.lt
      | Ordering.gt ↦ some Ordering.gt
      | Ordering.eq ↦
          elim (compare_versions (or_text right.version (codes "0.0.0"))
            (or_text left.version (codes "0.0.0"))) [ none ↦ none | some o ↦ some (o then last) ]
    ]

-- The pool of a requirement: by its identity, else by its name
unfoldable pub pool : Catalog → Entry → List Candidate
pool catalog e = elim (lookup (entry_key e) catalog.by_identity) [
  | some candidates ↦ candidates
  | none ↦ elim (lookup e.name catalog.by_name) [ some candidates ↦ candidates | none ↦ [] ]
]

unfoldable pub select_satisfying : List Requirement → List Candidate → Option (List Candidate)
select_satisfying constraints [] = some []
select_satisfying constraints (c ∷ candidates) =
    let rest = select_satisfying constraints candidates in
    elim (candidate_satisfies_all c constraints) [
      | none ↦ none
      | some b ↦ elim rest [ none ↦ none | some r ↦ some (if b then c ∷ r else r) ]
    ]

-- `matching_candidates`. Which pairs a sort compares, and so whether it meets a version that does not
-- parse, is the sort's own choice.
unfoldable pub matching_candidates :
    Requirement → List Requirement → Option Installed → Catalog → Option (List Candidate)
unfolding pool select_satisfying preferred_registries compare_candidates
matching_candidates requirement constraints installed catalog =
    elim (select_satisfying constraints (pool catalog requirement.entry)) [
      | none ↦ none
      | some candidates ↦
          elim (all_raising
            (λ (q : Requirement). constraint_is_exact (some (or_text q.entry.version (codes "*"))))
            constraints) [
              | none ↦ none
              | some exact_only ↦
                  sort_raising
                    (compare_candidates (preferred_registries constraints catalog) installed
                      exact_only)
                    candidates
            ]
    ]

-- Whether a candidate and a selected one exclude each other
unfoldable pub clash : Candidate → Candidate → Option Bool
unfolding entry_matches_skill
clash c other =
    if str_eq other.name c.name
    then some true
    else elim (any_raising (λ e. entry_matches_skill e (candidate_skill other)) c.conflicts_with) [
      | none ↦ none
      | some true ↦ some true
      | some false ↦
          any_raising (λ e. entry_matches_skill e (candidate_skill c)) other.conflicts_with
    ]

-- `selected_conflict_reason`, as a test
unfoldable pub selected_conflict : Candidate → Dict Candidate → Option Bool
unfolding clash
selected_conflict c [] = some false
selected_conflict c ((identity, other) ∷ selected) =
    let rest = selected_conflict c selected in
    if str_eq identity (candidate_key c)
    then rest
    else elim (clash c other) [ none ↦ none | some true ↦ some true | some false ↦ rest ]
