-- ===== src/Install/Model.antt =====
-- The values of the planner. Texts that are absent or None are empty, since the code tests them as
-- truth values only; versions are lists of code points.
use infinitas_skill.Prelude.{
  ℕ, String, Bool, Option, none, some, List, [], ◌∷◌, str_eq, if◌then◌else◌,
}
use infinitas_skill.Prelude.Text.{Text}

-- An entry of `depends_on` or `conflicts_with`, as `_normalize_entry` makes it
pub record Entry : Type 0 where
  pub name : String
  pub publisher : String
  pub qualified_name : String
  pub identity_key : String
  pub version : Text
  pub registry : String
  pub allow_incubating : Bool

-- An entry with the source that requires it, as `_prepare_requirement` makes it
pub record Requirement : Type 0 where
  pub entry : Entry
  pub source_name : String
  pub source_version : Text
  pub source_registry : String

pub record Candidate : Type 0 where
  pub name : String
  pub publisher : String
  pub qualified_name : String
  pub identity_key : String
  pub version : Text
  pub registry_name : String
  pub registry_order : ℕ
  pub stage : String
  pub source_type : String
  pub snapshot_created_at : String
  pub dir_name : String
  pub path : String
  pub installable : Bool
  pub depends_on : List Entry
  pub conflicts_with : List Entry

-- An item of `load_installed_state`
pub record Installed : Type 0 where
  pub name : String
  pub publisher : String
  pub qualified_name : String
  pub identity_key : String
  pub version : Text
  pub locked_version : Text
  pub source_registry : String
  pub conflicts_with : List Entry

-- A dict with texts as keys, in the order of insertion
abbrev pub Dict : Type 0 → Type 0
Dict A = List (String × A)

-- What `scan_enabled_registry_skills` finds
pub record Catalog : Type 0 where
  pub by_identity : Dict (List Candidate)
  pub by_name : Dict (List Candidate)
  pub registries : List String

-- `x or y` on texts
abbrev pub or_else : String → String → String
or_else s t = if str_eq s "" then t else s

-- `item.get("identity_key") or item.get("name")`
abbrev pub entry_key : Entry → String
entry_key e = or_else e.identity_key e.name

abbrev pub candidate_key : Candidate → String
candidate_key c = or_else c.identity_key c.name

abbrev pub installed_key : Installed → String
installed_key i = or_else i.identity_key i.name

unfoldable pub lookup {ℓ} : {A : Type ℓ} → String → List (String × A) → Option A
lookup k [] = none
lookup k ((i, a) ∷ d) = if str_eq i k then some a else lookup k d

-- `d[k] = a`
unfoldable pub assign {ℓ} : {A : Type ℓ} → String → A → List (String × A) → List (String × A)
assign k a [] = (k, a) ∷ []
assign k a ((i, b) ∷ d) =
    let rest = assign k a d in if str_eq i k then (i, a) ∷ d else (i, b) ∷ rest

-- Why a `DependencyError` is raised; the messages and details are not modelled.
pub data Problem : Type 0 where
  missing_identity conflicting_requirements no_longer_satisfied no_candidate no_path
        installed_conflict locked :
      Problem

-- A call returns, raises a `DependencyError` or a `ValueError`, or is out of fuel.
pub data Outcome {ℓ} (A : Type ℓ) : Type ℓ where
  done : A → Outcome A
  dependency_error : Problem → Outcome A
  value_error : Outcome A
  out_of_fuel : Outcome A
