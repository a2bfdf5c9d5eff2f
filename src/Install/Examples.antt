-- ===== src/Install/Examples.antt =====
-- Runs of the planner on small catalogs, and the theorems on them.
use infinitas_skill.Prelude.{
  ℕ, String, true, false, some, List, [], ◌∷◌, ◌≡◌, ◌≢◌, refl, ◌<◌, arith, str_eq, length, ◌+◌, All,
  if◌then◌else◌,
}
use infinitas_skill.Prelude.Sort.{sort_by, sort_raising}
use infinitas_skill.Prelude.Text.{Text, codes}
use infinitas_skill.Install.Model.{
  Entry, Candidate, Catalog, Dict, done, out_of_fuel, candidate_key, lookup, assign,
}
use infinitas_skill.Install.Matching.{
  clash, pool, matching_candidates, candidate_satisfies_all, satisfies, constraints_compatible,
  selected_conflict,
}
use infinitas_skill.Install.Solver.{
  solve, requirements, validate_final_state, compare_pending, conflicts_any,
}
use infinitas_skill.Install.Lookup.{str_ne}
use infinitas_skill.Versions.Semver.{parse_semver, compare_versions}
use infinitas_skill.Versions.Constraint.{version_satisfies, constraint_is_exact}
use infinitas_skill.Versions.Decimal.{decimal}
use infinitas_skill.Install.Sound.{Met, IsNamed, AreKeyed, solve-Met}
use infinitas_skill.Install.Peace.{solve-IsPeaceful}
use infinitas_skill.Install.Measure.{open_deps}
use infinitas_skill.Install.Ends.{solve-ends}
use infinitas_skill.Install.Plan.{built, Step, plan, build_plan}
use infinitas_skill.Install.Whole.{
  Layered, IsLayered, IsInstallable, plan-build_plan, plan-IsInstallable,
}

abbrev entry : String → Text → Entry
entry name version = record {
  name = name;
  publisher = "";
  qualified_name = "";
  identity_key = name;
  version = version;
  registry = "";
  allow_incubating = false;
}

abbrev candidate : String → String → Text → List Entry → Candidate
candidate key name version deps = record {
  name = name;
  publisher = "";
  qualified_name = key;
  identity_key = key;
  version = version;
  registry_name = "main";
  registry_order = 0;
  stage = "active";
  source_type = "distribution-manifest";
  snapshot_created_at = "";
  dir_name = name;
  path = name;
  installable = true;
  depends_on = deps;
  conflicts_with = [];
}

abbrev app : Candidate
app =
    candidate "app" "app" (codes "1.0.0")
      (entry "lib" (codes "^1.0.0") ∷ entry "core" (codes "*") ∷ [])

abbrev lib : Candidate
lib = candidate "lib" "lib" (codes "1.2.0") (entry "core" (codes ">=2.0.0") ∷ [])

abbrev lib_next : Candidate
lib_next = candidate "lib" "lib" (codes "2.0.0") []

abbrev core : Candidate
core = candidate "core" "core" (codes "2.1.0") []

abbrev catalog : Catalog
catalog = record {
  by_identity = ("lib", lib_next ∷ lib ∷ []) ∷ ("core", core ∷ []) ∷ [];
  by_name = ("lib", lib_next ∷ lib ∷ []) ∷ ("core", core ∷ []) ∷ [];
  registries = "main" ∷ [];
}

abbrev selection : Dict Candidate
selection = ("app", app) ∷ ("core", core) ∷ ("lib", lib) ∷ []

finds_selection : solve [] catalog 8 app ≡ done selection
unfolding solve sort_by compare_pending constraints_compatible lookup matching_candidates
    candidate_satisfies_all satisfies version_satisfies constraint_is_exact sort_raising
    selected_conflict assign parse_semver compare_versions decimal
finds_selection = refl

catalog-IsNamed : IsNamed catalog
unfolding pool lookup
catalog-IsNamed = record {
  identities = ((tt, (((refl, tt), tt), tt)), ((tt, tt), tt));
  names = ((tt, (((refl, tt), tt), tt)), ((tt, tt), tt));
}

app-AreKeyed : AreKeyed catalog app
unfolding pool lookup
app-AreKeyed = ((refl, (refl, tt)), ((refl, tt), tt))

solve-Met_example :
    (lookup "app" selection ≡ some app)
    × ((k : String) (c : Candidate)
        → lookup k selection ≡ some c
        → All (Met selection) (requirements c))
solve-Met_example =
    solve-Met [] catalog catalog-IsNamed 8 app selection app-AreKeyed finds_selection

few_dependencies : length app.depends_on + open_deps catalog [] < 8
unfolding open_deps lookup
few_dependencies = omega arith

solve-ends_example : solve [] catalog 8 app ≢ out_of_fuel
solve-ends_example = solve-ends [] catalog catalog-IsNamed 8 app app-AreKeyed few_dependencies

core_selected : lookup "core" selection ≡ some core
unfolding lookup
core_selected = refl

lib_selected : lookup "lib" selection ≡ some lib
unfolding lookup
lib_selected = refl

core_is_not_lib : candidate_key core ≢ candidate_key lib
core_is_not_lib = str_ne "core" "lib" refl

solve-IsPeaceful_example : clash core lib ≡ some false
solve-IsPeaceful_example =
    solve-IsPeaceful [] catalog 8 app selection finds_selection "core" "lib" core lib core_selected
      lib_selected core_is_not_lib

abbrev rank : String → ℕ
rank k = if str_eq k "app" then 2 else if str_eq k "lib" then 1 else 0

catalog-IsLayered : IsLayered rank catalog
catalog-IsLayered = record {
  identities = (((tt, tt), (((refl, tt), (omega arith, tt)), tt)), (((tt, tt), tt), tt));
  names = (((tt, tt), (((refl, tt), (omega arith, tt)), tt)), (((tt, tt), tt), tt));
}

app-Layered : Layered rank app
app-Layered = ((refl, (refl, tt)), (omega arith, (omega arith, tt)))

validates : validate_final_state app selection [] "install" ≡ done tt
unfolding validate_final_state conflicts_any lookup
validates = refl

plans : plan 8 app [] catalog "install" ≡ done (build_plan app selection [] "install" 10)
plans = plan-build_plan [] catalog 8 app "install" selection finds_selection validates

plan-IsInstallable_example :
    (steps : List Step) × ((build_plan app selection [] "install" 10 ≡ built steps)
      × IsInstallable app [] "install" steps)
plan-IsInstallable_example =
    plan-IsInstallable [] catalog catalog-IsNamed rank catalog-IsLayered 8 app "install"
      (build_plan app selection [] "install" 10) app-AreKeyed app-Layered plans

-- A dependency without a publisher is looked up by name when no identity is its name, and the search
-- then selects the candidate under another key: a cycle of such dependencies is never met again.
abbrev left : Candidate
left = candidate "acme/left" "left" (codes "1.0.0") (entry "right" (codes "*") ∷ [])

abbrev right : Candidate
right = candidate "acme/right" "right" (codes "1.0.0") (entry "left" (codes "*") ∷ [])

abbrev crossed : Catalog
crossed = record {
  by_identity = ("acme/left", left ∷ []) ∷ ("acme/right", right ∷ []) ∷ [];
  by_name = ("left", left ∷ []) ∷ ("right", right ∷ []) ∷ [];
  registries = "main" ∷ [];
}

never_ends : solve [] crossed 12 left ≡ out_of_fuel
unfolding solve sort_by compare_pending constraints_compatible lookup matching_candidates
    candidate_satisfies_all satisfies version_satisfies constraint_is_exact sort_raising
    selected_conflict assign parse_semver compare_versions decimal
never_ends = refl

-- And it replaces what is selected under that key, whatever was required of it.
abbrev old_tool : Candidate
old_tool = candidate "acme/tool" "tool" (codes "1.0.0") []

abbrev new_tool : Candidate
new_tool = candidate "acme/tool" "tool" (codes "2.0.0") []

abbrev user : Candidate
user =
    candidate "acme/user" "user" (codes "1.0.0")
      (entry "acme/tool" (codes "=1.0.0") ∷ entry "tool" (codes "=2.0.0") ∷ [])

abbrev two_tools : Catalog
two_tools = record {
  by_identity = ("acme/user", user ∷ []) ∷ ("acme/tool", old_tool ∷ new_tool ∷ []) ∷ [];
  by_name = ("user", user ∷ []) ∷ ("tool", old_tool ∷ new_tool ∷ []) ∷ [];
  registries = "main" ∷ [];
}

replaces_selected :
    solve [] two_tools 8 user ≡ done (("acme/user", user) ∷ ("acme/tool", new_tool) ∷ [])
unfolding solve sort_by compare_pending constraints_compatible lookup matching_candidates
    candidate_satisfies_all satisfies version_satisfies constraint_is_exact sort_raising
    selected_conflict assign parse_semver compare_versions decimal
replaces_selected = refl
