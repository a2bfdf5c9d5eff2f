-- ===== src/Visibility/Publishing.antt =====
-- server/modules/release/agent_publish_service.py, `finalize_publish_intent`, and the transaction of
-- server/worker.py that it ends.
use infinitas_skill.Prelude.{
  ℕ, String, Bool, true, false, Option, none, some, ◌∷◌, not, ◌==◌, if◌then◌else◌,
}
use infinitas_skill.Prelude.Result.{Result, ok, err, conflict, ◌>>=◌, require}
use infinitas_skill.Prelude.Table.{get, put, latest, next_id}
use infinitas_skill.Visibility.Model.{
  Db, Release, Exposure, AuditEvent, ServicePrincipal, AgentPublishIntent, IntentState, activated,
  suppressed, public, listed, enabled, no_review, active, of_intent, by_agent, system_worker,
  release_payload, intent_payload, is_ready, release_row, exposure_row, intent_row, service_row,
}
use infinitas_skill.Visibility.Release.{
  append_audit_event, get_release_snapshot, mark_release_ready, mark_release_materialization_failed,
}
use infinitas_skill.Visibility.Exposure.{holds_place, is_incompatible}

-- `intent.state in {"activated", "suppressed"}`
abbrev pub is_finished : IntentState → Bool
is_finished activated = true
is_finished suppressed = true
is_finished _ = false

-- `blocked`, the reason against publishing, if there is one
unfoldable pub publish_blocked : Option ServicePrincipal → Release → Option String
unfolding is_incompatible
publish_blocked none release = some "agent is no longer active"
publish_blocked (some service) release =
    if not service.is_active
    then some "agent is no longer active"
    else if not service.auto_public_publish
    then some "auto public publish is disabled"
    else if not (is_ready release.state)
    then some "release is not ready"
    else if is_incompatible release.canonical_runtime
    then some "public visibility is blocked by runtime compatibility"
    else none

unfoldable pub suppress : Db → AgentPublishIntent → String → AgentPublishIntent × Db
suppress db intent reason =
    let intent' : AgentPublishIntent = record intent { state = suppressed; reason = reason } in
    (intent', record db { intents = put intent' db.intents })

-- The row that is inserted when the release has no open public exposure
unfoldable pub published_exposure : ℕ → Release → AgentPublishIntent → Bool → ℕ → Exposure
published_exposure id release intent auto_public_publish now = record {
  id = id;
  release_id = release.id;
  audience_type = public;
  listing_mode = listed;
  install_mode = enabled;
  review_requirement = no_review;
  state = active;
  requested_by_principal_id = some intent.principal_id;
  policy_snapshot = of_intent intent.id auto_public_publish;
  activated_at = some now;
  ended_at = none;
}

-- The exposure of the intent, and the database with it; by the unique index the query has one row at
-- most, and with one writer the insertion meets no integrity error.
unfoldable pub publish : Db → Release → AgentPublishIntent → Bool → ℕ → Exposure × Db
unfolding published_exposure
publish db release intent auto_public_publish now =
    elim (latest (holds_place release.id public) db.exposures) [
      | some exposure ↦ (exposure, db)
      | none ↦
          let exposure =
            published_exposure (next_id db.exposures) release intent auto_public_publish now in
          (exposure, record db { exposures = exposure ∷ db.exposures })
    ]

-- From the release on, once nothing blocks it
unfoldable pub activate_intent :
    Db → Release → AgentPublishIntent → Bool → ℕ → Result (AgentPublishIntent × Db)
unfolding publish get_release_snapshot append_audit_event
activate_intent db release intent auto_public_publish now = do
  let (exposure, db1) = publish db release intent auto_public_publish now
  let intent' =
      let i : AgentPublishIntent = record intent {
        state = activated;
        activated_at = some now;
        reason = "";
      } in
      i
  let db2 = record db1 { intents = put intent' db1.intents }
  snapshot ← get_release_snapshot db2 release.id
  let event =
      let e : AuditEvent = record {
        aggregate_type = "exposure";
        aggregate_id = exposure.id;
        event_type = "exposure.activated";
        actor_ref = by_agent intent.principal_id;
        owner_principal_id = some snapshot.skill.namespace_id;
        payload = intent_payload release.id intent.id;
      } in
      e
  ok (intent', append_audit_event db2 event)

-- `policy.get("auto_public_publish") is True`
abbrev pub publishes_automatically : Option ServicePrincipal → Bool
publishes_automatically none = false
publishes_automatically (some service) = service.auto_public_publish

-- What `finalize_publish_intent` does with an intent that is not finished
unfoldable pub finalize_pending : Db → AgentPublishIntent → ℕ → Result (AgentPublishIntent × Db)
unfolding publish_blocked suppress activate_intent
finalize_pending db intent now =
    let service =
      latest (λ (s : ServicePrincipal). s.principal_id == intent.principal_id) db.services in
    elim (get intent.release_id db.releases) [
      | none ↦ ok (suppress db intent "release not found")
      | some release ↦ elim (publish_blocked service release) [
        | some reason ↦ ok (suppress db intent reason)
        | none ↦ activate_intent db release intent (publishes_automatically service) now
      ]
    ]

unfoldable pub finalize_publish_intent : Db → ℕ → ℕ → Result (AgentPublishIntent × Db)
unfolding finalize_pending
finalize_publish_intent db intent_id now = do
  intent ← require (get intent_id db.intents) (conflict "publish intent not found")
  if is_finished intent.state then ok (intent, db) else finalize_pending db intent now

-- The database after a transaction: what it left, or `db` when it raised
abbrev pub committed {ℓ} : {A : Type ℓ} → (A → Db) → Db → Result A → Db
committed f db (ok a) = f a
committed f db (err e) = db

-- `_audit_materialization_failure` of server/worker.py, for a release that is there
unfoldable pub fail_release : Db → Release → Bool → Result Db
unfolding mark_release_materialization_failed get_release_snapshot append_audit_event
fail_release db release permanent = do
  let db1 = if permanent then (mark_release_materialization_failed db release).1 else db
  snapshot ← get_release_snapshot db1 release.id
  let event =
      let e : AuditEvent = record {
        aggregate_type = "release";
        aggregate_id = release.id;
        event_type = "release.materialization_failed";
        actor_ref = system_worker;
        owner_principal_id = some snapshot.skill.namespace_id;
        payload = release_payload snapshot.skill.id release.id snapshot.skill_version.id;
      } in
      e
  ok (append_audit_event db1 event)

-- The intent of the job's payload, if any, after the release was marked ready. An intent that is not
-- there raises, before anything is written for it; the job fails for good in the same transaction,
-- which keeps what the materialiser wrote, and marks the release failed.
unfoldable pub finish_intent : Db → Db → Release → Option ℕ → ℕ → Db
unfolding finalize_publish_intent fail_release
finish_intent db db1 release none now = db1
finish_intent db db1 release (some id) now =
    committed (λ r. r.1) (committed (λ d. d) db (fail_release db1 release true))
      (finalize_publish_intent db1 id now)

-- The rows that a materialize_release job writes once the artifacts are built. Without the rows of the
-- release's snapshot, marking it ready and writing the audit event of that both raise.
unfoldable pub finish_materialization : Db → Release → ℕ → ℕ → ℕ → ℕ → Option ℕ → ℕ → Db
unfolding mark_release_ready finish_intent
finish_materialization db release manifest bundle signature provenance intent_id now =
    committed (λ r. finish_intent db r.1 r.0 intent_id now) db
      (mark_release_ready db release manifest bundle signature provenance now)
