-- ===== src/Visibility/Release.antt =====
-- server/modules/release/service.py: look-ups, ownership and the life of a release.
use mathlib.Core.Bool.{◌&&◌}
use infinitas_skill.Prelude.{
  ℕ, Bool, true, false, Option, none, some, ◌∷◌, any, ◌==◌, if◌then◌else◌,
}
use infinitas_skill.Prelude.Result.{Result, ok, not_found, forbidden, ◌>>=◌, ◌>>◌, ensure, require}
use infinitas_skill.Prelude.Table.{get, put, next_id, latest}
use infinitas_skill.Visibility.Model.{
  Db, Release, Skill, SkillVersion, Principal, Team, TeamMembership, AuditEvent, ActorLabel,
  ActorRef, by_principal, by_actor, system_worker, release_payload, preparing, ready, failed,
  is_ready, principal_row, team_row, skill_row, version_row, release_row,
}

-- `actor_ref_label`
unfoldable pub actor_ref_label : ActorRef → ActorLabel
actor_ref_label actor = by_actor actor.principal.slug actor.credential_id

-- `append_audit_event` of audit/service.py
unfoldable pub append_audit_event : Db → AuditEvent → Db
append_audit_event db event = record db { audit = event ∷ db.audit }

unfoldable pub get_release_or_404 : Db → ℕ → Result Release
get_release_or_404 db release_id =
    require (get release_id db.releases) (not_found "release not found")

unfoldable pub get_skill_version_or_404 : Db → ℕ → Result SkillVersion
get_skill_version_or_404 db version_id =
    require (get version_id db.versions) (not_found "skill version not found")

unfoldable pub get_skill_or_404 : Db → ℕ → Result Skill
get_skill_or_404 db skill_id = require (get skill_id db.skills) (not_found "skill not found")

unfoldable pub get_namespace_or_404 : Db → ℕ → Result Principal
get_namespace_or_404 db principal_id =
    require (get principal_id db.principals) (not_found "namespace principal not found")

-- The query joins `TeamMembership` with `Team`.
unfoldable pub is_team_member : Db → ℕ → ℕ → Bool
is_team_member db namespace_id principal_id =
    any
      (λ (m : TeamMembership).
        m.user_id == principal_id
        && any (λ (t : Team). t.id == m.team_id && t.principal_id == namespace_id) db.teams)
      db.memberships

unfoldable pub assert_skill_owner : Db → Skill → ℕ → Bool → Result (Unit {0})
unfolding is_team_member
assert_skill_owner db skill principal_id is_maintainer =
    if is_maintainer
    then ok tt
    else if skill.namespace_id == principal_id
    then ok tt
    else ensure (is_team_member db skill.namespace_id principal_id)
        (forbidden "release namespace access denied")

pub record ReleaseSnapshot : Type 0 where
  pub release : Release
  pub skill_version : SkillVersion
  pub skill : Skill
  pub namespace : Principal

unfoldable pub get_release_snapshot : Db → ℕ → Result ReleaseSnapshot
unfolding get_release_or_404 get_skill_version_or_404 get_skill_or_404 get_namespace_or_404
get_release_snapshot db release_id = do
  release ← get_release_or_404 db release_id
  skill_version ← get_skill_version_or_404 db release.skill_version_id
  skill ← get_skill_or_404 db skill_version.skill_id
  namespace ← get_namespace_or_404 db skill.namespace_id
  ok (record {
    release = release;
    skill_version = skill_version;
    skill = skill;
    namespace = namespace;
  })

unfoldable pub assert_release_owner : Db → Release → ℕ → Bool → Result (Unit {0})
unfolding get_release_snapshot assert_skill_owner
assert_release_owner db release principal_id is_maintainer = do
  snapshot ← get_release_snapshot db release.id
  assert_skill_owner db snapshot.skill principal_id is_maintainer

abbrev actor_label : ℕ → Option ActorRef → ActorLabel
actor_label actor_principal_id none = by_principal actor_principal_id
actor_label actor_principal_id (some actor) = actor_ref_label actor

-- The row that `create_or_get_release` inserts
unfoldable pub new_release : Db → ℕ → ℕ → ℕ → Release
new_release db version_id skill_id actor_principal_id = record {
  id = next_id db.releases;
  skill_version_id = version_id;
  skill_id = some skill_id;
  state = preparing;
  manifest_artifact_id = none;
  bundle_artifact_id = none;
  signature_artifact_id = none;
  provenance_artifact_id = none;
  ready_at = none;
  canonical_runtime = none;
  created_by_principal_id = some actor_principal_id;
}

-- `create_or_get_release`; with one writer the insertion meets no integrity error, since the query
-- before it has found no release of the version.
unfoldable pub create_or_get_release :
    Db → ℕ → ℕ → Bool → Option ActorRef → Result (Release × Bool × Db)
unfolding get_skill_version_or_404 get_skill_or_404 assert_skill_owner append_audit_event
    new_release
create_or_get_release db version_id actor_principal_id is_maintainer audit_actor = do
  skill_version ← get_skill_version_or_404 db version_id
  skill ← get_skill_or_404 db skill_version.skill_id
  assert_skill_owner db skill actor_principal_id is_maintainer
  elim (latest (λ (r : Release). r.skill_version_id == skill_version.id) db.releases) [
    | some existing ↦ ok (existing, false, db)
    | none ↦
        let release = new_release db skill_version.id skill.id actor_principal_id in
        let event : AuditEvent = record {
          aggregate_type = "release";
          aggregate_id = release.id;
          event_type = "release.created";
          actor_ref = actor_label actor_principal_id audit_actor;
          owner_principal_id = some skill.namespace_id;
          payload = release_payload skill.id release.id skill_version.id;
        } in
        ok
          (release, true, append_audit_event (record db { releases = release ∷ db.releases }) event)
  ]

-- `mark_release_ready`
unfoldable pub mark_release_ready : Db → Release → ℕ → ℕ → ℕ → ℕ → ℕ → Result (Release × Db)
unfolding get_release_snapshot append_audit_event
mark_release_ready db release manifest bundle signature provenance now = do
  let next = record release {
    state = ready;
    manifest_artifact_id = some manifest;
    bundle_artifact_id = some bundle;
    signature_artifact_id = some signature;
    provenance_artifact_id = some provenance;
    ready_at = some now;
  }
  let db' = record db { releases = put next db.releases }
  snapshot ← get_release_snapshot db' next.id
  let event =
      let e : AuditEvent = record {
        aggregate_type = "release";
        aggregate_id = next.id;
        event_type = if is_ready release.state then "release.rematerialized" else "release.ready";
        actor_ref = system_worker;
        owner_principal_id = some snapshot.skill.namespace_id;
        payload = release_payload snapshot.skill.id next.id snapshot.skill_version.id;
      } in
      e
  ok (next, append_audit_event db' event)

-- `mark_release_materialization_failed`
unfoldable pub mark_release_materialization_failed : Db → Release → Release × Db
mark_release_materialization_failed db release =
    let next : Release = record release { state = failed; ready_at = none } in
    (next, record db { releases = put next db.releases })
