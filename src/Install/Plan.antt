-- ===== src/Install/Plan.antt =====
-- src/infinitas_skill/install/plan_builder.py: the steps of a plan, in the order in which they are
-- applied.
use Prim.Native.Nat.{Ordering}
use Prim.Native.String.{compare as str_compare}
use infinitas_skill.Prelude.{
  ℕ, zero, suc, String, Bool, true, false, Option, none, some, List, [], ◌∷◌, ◌++◌, ◌&&◌, ◌||◌, not,
  str_eq, if◌then◌else◌, is_some,
}
use infinitas_skill.Prelude.Text.{Text, codes, text_beq}
use infinitas_skill.Prelude.Order.{◌then◌}
use infinitas_skill.Prelude.Sort.{sort_by}
use infinitas_skill.Install.Model.{
  Entry, Candidate, Installed, Dict, Catalog, Outcome, done, dependency_error, value_error,
  out_of_fuel, entry_key, candidate_key, lookup, assign,
}
use infinitas_skill.Install.Matching.{or_text}
use infinitas_skill.Install.Solver.{compare_text, solve, validate_final_state}

pub data Action : Type 0 where
  sync install keep switch upgrade switch_upgrade : Action

-- `plan_action`
unfoldable pub plan_action : String → Candidate → Option Installed → Candidate → String → Action
plan_action key c none root mode =
    if str_eq key (candidate_key root) && str_eq mode "sync" then sync else install
plan_action key c (some i) root mode =
    let same_version = text_beq i.version c.version || text_beq i.locked_version c.version in
    let same_registry = str_eq i.source_registry "" || str_eq i.source_registry c.registry_name in
    if str_eq key (candidate_key root) && str_eq mode "sync"
    then (if not (same_version && same_registry) then sync else keep)
    else if same_version && same_registry
    then keep
    else if same_version && not same_registry
    then switch
    else if not same_version && same_registry
    then upgrade
    else switch_upgrade

-- What a call returns, or that it raises a `ValueError` or a `KeyError`, or is out of fuel
pub data Built {ℓ} (A : Type ℓ) : Type ℓ where
  built : A → Built A
  bad_value : Built A
  missing_key : Built A
  unfinished : Built A

-- The key of `sorted` in `visit`
unfoldable pub compare_dep : Entry → Entry → Ordering
unfolding compare_text
compare_dep a b =
    str_compare a.name b.name
    then compare_text (or_text a.version (codes "*")) (or_text b.version (codes "*"))

unfoldable pub elem : String → List String → Bool
elem k [] = false
elem k (x ∷ l) = str_eq x k || elem k l

-- `visited` and `apply_order`
pub record Trace : Type 0 where
  pub visited : List String
  pub order : List String

abbrev pub enter : String → Trace → Trace
enter k s = record { visited = k ∷ s.visited; order = s.order }

abbrev pub leave : String → Trace → Trace
leave k s = record { visited = s.visited; order = s.order ++ k ∷ [] }

abbrev pub start : Trace
start = record { visited = []; order = [] }

module _ (selected : Dict Candidate) where
  -- The loop of `visit`, with the recursive call
  unfoldable pub visit_all : (String → Trace → Built Trace) → List Entry → Trace → Built Trace
  visit_all go [] s = built s
  visit_all go (e ∷ deps) s =
      if is_some (lookup (entry_key e) selected)
      then elim (go (entry_key e) s) [
        | built t ↦ visit_all go deps t
        | bad_value ↦ bad_value
        | missing_key ↦ missing_key
        | unfinished ↦ unfinished
      ]
      else visit_all go deps s

  -- The part of `visit` for an identity that is not visited yet
  unfoldable pub visit_new : (String → Trace → Built Trace) → String → Trace → Built Trace
  unfolding visit_all compare_dep
  visit_new go k s = elim (lookup k selected) [
    | none ↦ missing_key
    | some c ↦ elim (visit_all go (sort_by compare_dep c.depends_on) (enter k s)) [
      | built t ↦ built (leave k t)
      | bad_value ↦ bad_value
      | missing_key ↦ missing_key
      | unfinished ↦ unfinished
    ]
  ]

  -- `visit`
  unfoldable pub visit : ℕ → String → Trace → Built Trace
  unfolding visit_new elem
  visit zero k s = unfinished
  visit (suc fuel) k s = if elem k s.visited then built s else visit_new (visit fuel) k s

-- Who requires an identity, as the plan shows it
pub record Requester : Type 0 where
  pub by : String
  pub by_qualified_name : String
  pub version : Text
  pub registry : String
  pub constraint : Text
  pub allow_incubating : Bool

unfoldable pub requester : Candidate → Entry → Requester
requester c e = record {
  by = c.name;
  by_qualified_name = c.qualified_name;
  version = c.version;
  registry = e.registry;
  constraint = e.version;
  allow_incubating = e.allow_incubating;
}

-- `requesters.setdefault(dep_key, []).append(...)`
unfoldable pub add_requester : String → Requester → Dict (List Requester) → Dict (List Requester)
unfolding lookup assign
add_requester k r d = elim (lookup k d) [
  | none ↦ assign k (r ∷ []) d
  | some l ↦ assign k (l ++ r ∷ []) d
]

unfoldable pub add_requesters :
    Candidate → List Entry → Dict (List Requester) → Built (Dict (List Requester))
unfolding add_requester requester
add_requesters c [] d = built d
add_requesters c (e ∷ deps) d =
    let rest = add_requesters c deps (add_requester (entry_key e) (requester c e) d) in
    if str_eq (entry_key e) "" then bad_value else rest

unfoldable pub requesters : Dict Candidate → Dict (List Requester) → Built (Dict (List Requester))
unfolding add_requesters
requesters [] d = built d
requesters ((_, c) ∷ selected) d = elim (add_requesters c c.depends_on d) [
  | built d' ↦ requesters selected d'
  | bad_value ↦ bad_value
  | missing_key ↦ missing_key
  | unfinished ↦ unfinished
]

-- A step: the fields of the candidate are copied into it.
pub record Step : Type 0 where
  pub order : ℕ
  pub candidate : Candidate
  pub action : Action
  pub needs_apply : Bool
  pub requested_by : List Requester
  pub root : Bool

abbrev is_keep : Action → Bool
is_keep keep = true
is_keep _ = false

module _ (root : Candidate) (selected : Dict Candidate) (installed : Dict Installed)
    (mode : String) where
  unfoldable pub make_step : Dict (List Requester) → ℕ → String → Candidate → Step
  unfolding plan_action lookup
  make_step by index k c =
      let action = plan_action k c (lookup k installed) root mode in
      record {
        order = index;
        candidate = c;
        action = action;
        needs_apply = not (is_keep action);
        requested_by = elim (lookup k by) [ none ↦ [] | some l ↦ l ];
        root = str_eq k (candidate_key root);
      }

  -- The loop over `apply_order`
  unfoldable pub make_steps : Dict (List Requester) → ℕ → List String → Built (List Step)
  unfolding make_step
  make_steps by index [] = built []
  make_steps by index (k ∷ order) =
      let rest = make_steps by (suc index) order in
      elim (lookup k selected) [
        | none ↦ missing_key
        | some c ↦ elim rest [
          | bad_value ↦ bad_value
          | missing_key ↦ missing_key
          | unfinished ↦ unfinished
          | built steps ↦ built (make_step by index k c ∷ steps)
        ]
      ]

  -- `build_plan`
  unfoldable pub build_plan : ℕ → Built (List Step)
  unfolding visit requesters make_steps
  build_plan fuel =
      if str_eq (candidate_key root) ""
      then bad_value
      else elim (visit selected fuel (candidate_key root) start) [
        | bad_value ↦ bad_value
        | missing_key ↦ missing_key
        | unfinished ↦ unfinished
        | built t ↦ elim (requesters selected []) [
          | bad_value ↦ bad_value
          | missing_key ↦ missing_key
          | unfinished ↦ unfinished
          | built by ↦ make_steps by 1 t.order
        ]
      ]

-- `DependencyPlanner.plan`, up to the steps. The fuel of the search is enough for the plan as well.
unfoldable pub plan :
    ℕ → Candidate → Dict Installed → Catalog → String → Outcome (Built (List Step))
unfolding solve validate_final_state build_plan
plan fuel root installed catalog mode = elim (solve installed catalog fuel root) [
  | dependency_error p ↦ dependency_error p
  | value_error ↦ value_error
  | out_of_fuel ↦ out_of_fuel
  | done selected ↦ elim (validate_final_state root selected installed mode) [
    | dependency_error p ↦ dependency_error p
    | value_error ↦ value_error
    | out_of_fuel ↦ out_of_fuel
    | done _ ↦ done (build_plan root selected installed mode (suc (suc fuel)))
  ]
]
