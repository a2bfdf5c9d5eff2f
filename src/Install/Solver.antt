-- ===== src/Install/Solver.antt =====
-- src/infinitas_skill/install/service.py: the search of `DependencyPlanner` for a selection.
use Prim.Native.Nat.{Ordering}
use Prim.Native.String.{compare as str_compare}
use infinitas_skill.Prelude.{
  ℕ, zero, suc, ◌+◌, String, Bool, true, false, Option, none, some, List, [], ◌∷◌, ◌++◌, not,
  str_eq, if◌then◌else◌, map, select, ◌&&◌,
}
use infinitas_skill.Prelude.Text.{Text, codes, text_beq}
use infinitas_skill.Prelude.Order.{◌then◌, compare_list}
use infinitas_skill.Prelude.Sort.{sort_by}
use infinitas_skill.Install.Model.{
  Entry, Requirement, Candidate, Installed, Catalog, Dict, entry_key, candidate_key, installed_key,
  lookup, assign, Outcome, done, dependency_error, value_error, out_of_fuel, missing_identity,
  conflicting_requirements, no_longer_satisfied, no_candidate, no_path, installed_conflict, locked,
}
use infinitas_skill.Install.Matching.{
  constraints_compatible, candidate_satisfies_all, matching_candidates, selected_conflict,
  entry_matches_skill, candidate_skill, installed_skill, any_raising, or_text,
}

-- `_prepare_requirement`
abbrev pub prepare : Candidate → Entry → Requirement
prepare source e = record {
  entry = e;
  source_name = source.name;
  source_version = source.version;
  source_registry = source.registry_name;
}

-- The requirements of a candidate
abbrev pub requirements : Candidate → List Requirement
requirements c = map (prepare c) c.depends_on

unfoldable pub compare_text : Text → Text → Ordering
unfolding compare_list
compare_text = compare_list Prim.Native.Nat.compare

-- `_pending_sort_key`
unfoldable pub compare_pending : Requirement → Requirement → Ordering
unfolding compare_text
compare_pending a b =
    str_compare (entry_key a.entry) (entry_key b.entry)
    then (str_compare a.entry.registry b.entry.registry
        then (compare_text (or_text a.entry.version (codes "*"))
              (or_text b.entry.version (codes "*"))
            then (str_compare a.source_name b.source_name
                then compare_text a.source_version b.source_version)))

abbrev pub has_key : String → Requirement → Bool
has_key k q = str_eq (entry_key q.entry) k

-- The requirements of the group and the rest of them, as `_next_requirement_group` splits them
abbrev pub same_name : Requirement → List Requirement → List Requirement
same_name first others = first ∷ select (has_key (entry_key first.entry)) others

abbrev pub others : Requirement → List Requirement → List Requirement
others first pending = select (λ q. not (has_key (entry_key first.entry) q)) pending

module _ (go : Dict Candidate → List Requirement → Outcome (Dict Candidate)) where
  -- `_resolve_candidates`, with the recursive call
  unfoldable pub resolve_candidates :
      List Candidate → Dict Candidate → List Requirement → Outcome (Dict Candidate)
  resolve_candidates [] selected rest = dependency_error no_path
  resolve_candidates (c ∷ candidates) selected rest =
      let next = resolve_candidates candidates selected rest in
      elim (selected_conflict c selected) [
        | none ↦ value_error
        | some true ↦ next
        | some false ↦
            if str_eq (candidate_key c) ""
            then next
            else elim (go (assign (candidate_key c) c selected) (rest ++ requirements c)) [
              | dependency_error problem ↦ next
              | done found ↦ done found
              | value_error ↦ value_error
              | out_of_fuel ↦ out_of_fuel
            ]
      ]

module _ (installed : Dict Installed) (catalog : Catalog) where
  -- The body of `_resolve_recursive` for the sorted requirements, with the recursive call
  unfoldable pub resolve_group :
      (Dict Candidate → List Requirement → Outcome (Dict Candidate))
      → Dict Candidate
      → List Requirement
      → Outcome (Dict Candidate)
  unfolding resolve_candidates
  resolve_group go selected [] = done selected
  resolve_group go selected (first ∷ pending) =
      let key = entry_key first.entry in
      let group = same_name first pending in
      let rest = others first pending in
      if str_eq key ""
      then dependency_error missing_identity
      else if not (constraints_compatible group)
      then dependency_error conflicting_requirements
      else elim (lookup key selected) [
        | some c ↦ elim (candidate_satisfies_all c group) [
          | none ↦ value_error
          | some false ↦ dependency_error no_longer_satisfied
          | some true ↦ go selected rest
        ]
        | none ↦ elim (matching_candidates first group (lookup key installed) catalog) [
          | none ↦ value_error
          | some [] ↦ dependency_error no_candidate
          | some (c ∷ candidates) ↦ resolve_candidates go (c ∷ candidates) selected rest
        ]
      ]

  -- `_resolve_recursive`
  unfoldable pub resolve_recursive :
      ℕ → Dict Candidate → List Requirement → Outcome (Dict Candidate)
  unfolding resolve_group
  resolve_recursive zero selected pending = out_of_fuel
  resolve_recursive (suc fuel) selected pending =
      resolve_group (resolve_recursive fuel) selected (sort_by compare_pending pending)

  -- The search of `plan`, from the root
  unfoldable pub solve : ℕ → Candidate → Outcome (Dict Candidate)
  unfolding resolve_recursive
  solve fuel root =
      if str_eq (candidate_key root) ""
      then dependency_error missing_identity
      else resolve_recursive fuel ((candidate_key root, root) ∷ []) (requirements root)

-- `installed.get(...)` of a conflict check: the conflicts of a selected candidate and an installed item
conflicts_installed : Candidate → Installed → Option Bool
conflicts_installed c i =
    elim (any_raising (λ e. entry_matches_skill e (installed_skill i)) c.conflicts_with) [
      | none ↦ none
      | some true ↦ some true
      | some false ↦ any_raising (λ e. entry_matches_skill e (candidate_skill c)) i.conflicts_with
    ]

-- The two loops of `validate_final_state` over selected candidates and installed items
unfoldable pub conflicts_any : Dict Candidate → Dict Installed → Option Bool
unfolding conflicts_installed
conflicts_any selected installed =
    any_raising
      (λ (p : String × Candidate).
        any_raising
          (λ (q : String × Installed). elim (lookup (installed_key q.1) selected) [
            | some _ ↦ some false
            | none ↦ conflicts_installed p.1 q.1
          ])
          installed)
      selected

-- Whether the installed copy of a selected candidate is locked to another version
breaks_lock : Candidate → String → Dict Installed → String × Candidate → Bool
breaks_lock root mode installed (key, c) = elim (lookup key installed) [
  | none ↦ false
  | some i ↦
      not (str_eq mode "install" && str_eq key (candidate_key root))
      && (not (text_beq i.locked_version []) && not (text_beq c.version i.locked_version))
]

-- `validate_final_state`
unfoldable pub validate_final_state :
    Candidate → Dict Candidate → Dict Installed → String → Outcome (Unit {0})
unfolding conflicts_any breaks_lock
validate_final_state root selected installed mode = elim (conflicts_any selected installed) [
  | none ↦ value_error
  | some true ↦ dependency_error installed_conflict
  | some false ↦
      if infinitas_skill.Prelude.any (breaks_lock root mode installed) selected
      then dependency_error locked
      else done tt
]
