-- ===== src/Access/Authz.antt =====
-- server/modules/access/authz.py: the releases that a credential gives access to.
use infinitas_skill.Prelude.{
  ℕ, String, Bool, true, false, Option, none, some, List, [], ◌∷◌, ◌++◌, ◌&&◌, ◌||◌, ◌==◌,
  if◌then◌else◌, any, map, select, str_eq, is_some,
}
use infinitas_skill.Visibility.Model.{
  Exposure, Audience, private, authenticated, grant, public, is_active,
}
use infinitas_skill.Shares.Model.{AccessGrant, Store}
use infinitas_skill.Shares.Links.{is_grant, is_enabled}
use infinitas_skill.Shares.Access.{grant_allows_release}

-- What is read of an `AccessContext`: the type and the grant of its credential, its principal, whether
-- it has a user, and its scopes
pub record AccessContext : Type 0 where
  pub credential_type : String
  pub grant_id : Option ℕ
  pub principal_id : Option ℕ
  pub has_user : Bool
  pub scopes : List String

-- `require_any_scope`
abbrev pub require_any_scope : AccessContext → List String → Bool
require_any_scope context allowed = any (λ s. any (str_eq s) allowed) context.scopes

-- A dict of lists with integer keys
abbrev pub Groups : Type 0 → Type 0
Groups A = List (ℕ × List A)

-- `groups.get(k, [])`
unfoldable pub group_of {ℓ} : {A : Type ℓ} → ℕ → List (ℕ × List A) → List A
group_of k [] = []
group_of k ((i, l) ∷ groups) = if i == k then l else group_of k groups

-- `groups.setdefault(k, []).append(a)`
unfoldable pub add_to_group {ℓ} : {A : Type ℓ} → ℕ → A → List (ℕ × List A) → List (ℕ × List A)
add_to_group k a [] = (k, a ∷ []) ∷ []
add_to_group k a ((i, l) ∷ groups) =
    let rest = add_to_group k a groups in
    if i == k then (i, l ++ a ∷ []) ∷ groups else (i, l) ∷ rest

-- The loop that puts each row into the group of its key
unfoldable pub group_rows {ℓ} :
    {A : Type ℓ} → (A → ℕ) → List A → List (ℕ × List A) → List (ℕ × List A)
unfolding add_to_group
group_rows key [] groups = groups
group_rows key (a ∷ rows) groups = group_rows key rows (add_to_group (key a) a groups)

-- `column.in_(ids)` and `rid in ids`
unfoldable pub is_in : ℕ → List ℕ → Bool
is_in i ids = any (λ j. j == i) ids

-- The grants of the query of `_build_active_grants_lookup`
unfoldable pub is_listed_grant : List ℕ → AccessGrant → Bool
unfolding is_in
is_listed_grant ids g = is_in g.exposure_id ids && str_eq g.state "active"

-- The grants for exposures, in groups; nothing is queried without exposures.
unfoldable pub grants_among : Store → List ℕ → Groups AccessGrant
unfolding group_rows is_listed_grant
grants_among s [] = []
grants_among s (i ∷ ids) =
    group_rows (λ (g : AccessGrant). g.exposure_id) (select (is_listed_grant (i ∷ ids)) s.grants) []

-- `_build_active_grants_lookup`
unfoldable pub build_active_grants_lookup : Store → List Exposure → Option ℕ → Groups AccessGrant
unfolding grants_among
build_active_grants_lookup s exposures none = []
build_active_grants_lookup s exposures (some principal_id) =
    grants_among s
      (map (λ (e : Exposure). e.id) (select (λ (e : Exposure). is_grant e.audience_type) exposures))

-- Whether an optional id is this one
abbrev pub is_id : Option ℕ → ℕ → Bool
is_id none i = false
is_id (some j) i = j == i

-- The tests of `_release_is_accessible` on one exposure, for its audience
unfoldable pub opens : Groups AccessGrant → AccessContext → Audience → Exposure → Bool
unfolding group_of
opens active_grants context public e = true
opens active_grants context authenticated e =
    context.has_user
    || (str_eq context.credential_type "agent_token" && is_some context.principal_id)
opens active_grants context private e = elim context.principal_id [
  | none ↦ false
  | some p ↦ is_id e.requested_by_principal_id p
]
opens active_grants context grant e = elim context.principal_id [
  | none ↦ false
  | some p ↦ any (λ (g : AccessGrant). is_id g.subject_principal_id p) (group_of e.id active_grants)
]

-- `_release_is_accessible`
unfoldable pub release_is_accessible : List Exposure → Groups AccessGrant → AccessContext → Bool
unfolding opens
release_is_accessible exposures active_grants context =
    any (λ (e : Exposure). opens active_grants context e.audience_type e) exposures

-- The exposures of the query of `can_access_releases`
unfoldable pub is_listed_exposure : List ℕ → Exposure → Bool
unfolding is_in
is_listed_exposure ids e =
    is_in e.release_id ids && (is_active e.state && is_enabled e.install_mode)

-- `can_access_releases`, the set as a list
unfoldable pub can_access_releases : Store → AccessContext → List ℕ → List ℕ
unfolding grant_allows_release build_active_grants_lookup group_rows group_of is_listed_exposure
    release_is_accessible
can_access_releases s context release_ids = elim context.grant_id [
  | some grant_id ↦ select (λ i. grant_allows_release s grant_id i) release_ids
  | none ↦
      let exposures = select (is_listed_exposure release_ids) s.db.exposures in
      let active_grants = build_active_grants_lookup s exposures context.principal_id in
      let exposures_by_release = group_rows (λ (e : Exposure). e.release_id) exposures [] in
      select (λ i. release_is_accessible (group_of i exposures_by_release) active_grants context)
        release_ids
]

-- `can_access_release`
unfoldable pub can_access_release : Store → AccessContext → ℕ → Bool
unfolding can_access_releases is_in
can_access_release s context release_id =
    is_in release_id (can_access_releases s context (release_id ∷ []))
