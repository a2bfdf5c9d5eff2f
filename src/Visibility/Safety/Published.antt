-- ===== src/Visibility/Safety/Published.antt =====
-- What finishing a materialisation, with the intent of an agent, does to exposures.
use infinitas_skill.Prelude.{
  refl, false, if◌then◌else◌, ℕ, Bool, true, Option, none, some, String, ◌≡◌, arith, Bool-cases,
  Option-cases, inl, inr, ◌==◌,
}
use infinitas_skill.Prelude.Result.{Result, ok, err, Ensures, Ensures-ok, Ensures-bind}
use infinitas_skill.Prelude.Table.{get, latest}
use infinitas_skill.Visibility.Model.{
  Db, Release, ServicePrincipal, AgentPublishIntent, public, release_row, exposure_row, intent_row,
  service_row,
}
use infinitas_skill.Visibility.Release.{
  append_audit_event, mark_release_ready, mark_release_materialization_failed,
}
use infinitas_skill.Visibility.Exposure.{holds_place}
use infinitas_skill.Visibility.Publishing.{
  publish, publish_blocked, publishes_automatically, suppress, activate_intent, finalize_pending,
  finalize_publish_intent, finish_materialization, finish_intent, fail_release, committed,
  is_finished, published_exposure,
}
use infinitas_skill.Visibility.Safety.{IsSafe}

ready-IsSafe :
    (db : Db) (r : Release) (manifest bundle signature provenance now : ℕ)
    → IsSafe db
    → Ensures (λ x. IsSafe x.1) (mark_release_ready db r manifest bundle signature provenance now)
unfolding mark_release_ready
ready-IsSafe db r manifest bundle signature provenance now s =
    Ensures-bind _ _
      λ snapshot _. Ensures-ok _ (record { case_keys = s.case_keys; reviewed = s.reviewed })

-- Nothing blocks only an agent whose policy publishes automatically.
blocked-automatic :
    (service : Option ServicePrincipal) (release : Release)
    → publish_blocked service release ≡ none
    → publishes_automatically service ≡ true
unfolding publish_blocked
blocked-automatic none release h = absurd (cc h)
blocked-automatic (some service) release h = ground (arith, h)

publish-IsSafe :
    (db : Db) (release : Release) (intent : AgentPublishIntent) (automatic : Bool) (now : ℕ)
    → automatic ≡ true
    → IsSafe db
    → IsSafe (publish db release intent automatic now).1
unfolding publish published_exposure
publish-IsSafe db release intent automatic now a s =
    elim (Option-cases (latest (holds_place release.id public) db.exposures)) [
      | inr (e, n) ↦ rw (n, publish) s
      | inl n ↦
          rw (n, publish)
            (record { case_keys = s.case_keys; reviewed = (ground arith, s.reviewed) })
    ]

activate-IsSafe :
    (db : Db) (release : Release) (intent : AgentPublishIntent) (automatic : Bool) (now : ℕ)
    → automatic ≡ true
    → IsSafe db
    → Ensures (λ r. IsSafe r.1) (activate_intent db release intent automatic now)
unfolding activate_intent
activate-IsSafe db release intent automatic now a s =
    let s' = publish-IsSafe db release intent automatic now a s in
    Ensures-bind _ _
      λ snapshot _. Ensures-ok _ (record { case_keys = s'.case_keys; reviewed = s'.reviewed })

suppress-IsSafe :
    (db : Db) (intent : AgentPublishIntent) (reason : String)
    → IsSafe db
    → IsSafe (suppress db intent reason).1
unfolding suppress
suppress-IsSafe db intent reason s = record { case_keys = s.case_keys; reviewed = s.reviewed }

pending-IsSafe :
    (db : Db) (intent : AgentPublishIntent) (now : ℕ)
    → IsSafe db
    → Ensures (λ r. IsSafe r.1) (finalize_pending db intent now)
unfolding finalize_pending
pending-IsSafe db intent now s =
    let service =
      latest (λ (a : ServicePrincipal). a.principal_id == intent.principal_id) db.services in
    elim (Option-cases (get intent.release_id db.releases)) [
      | inl n ↦ rw (n, finalize_pending) (Ensures-ok _ (suppress-IsSafe db intent _ s))
      | inr (release, n) ↦ elim (Option-cases (publish_blocked service release)) [
        | inr (reason, b) ↦
            rw (n, finalize_pending)
              (rw (b, finalize_pending) (Ensures-ok _ (suppress-IsSafe db intent reason s)))
        | inl b ↦
            rw (n, finalize_pending)
              (rw (b, finalize_pending)
                (activate-IsSafe db release intent (publishes_automatically service) now
                  (blocked-automatic service release b) s))
      ]
    ]

finalize-IsSafe :
    (db : Db) (intent_id now : ℕ)
    → IsSafe db
    → Ensures (λ r. IsSafe r.1) (finalize_publish_intent db intent_id now)
unfolding finalize_publish_intent
finalize-IsSafe db intent_id now s = Ensures-bind _ _ λ intent _.
    elim (Bool-cases (is_finished intent.state)) [
      | inl f ↦ rw f (Ensures-ok _ s)
      | inr f ↦ rw f (pending-IsSafe db intent now s)
    ]

pub committed-IsSafe {ℓ} :
    {A : Type ℓ} (f : A → Db) (db : Db) (r : Result A)
    → IsSafe db
    → Ensures (λ a. IsSafe (f a)) r
    → IsSafe (committed f db r)
committed-IsSafe f db (ok a) s h = h.at a refl
committed-IsSafe f db (err e) s h = s

marked-IsSafe :
    (db : Db) (release : Release) (permanent : Bool)
    → IsSafe db
    → IsSafe (if permanent then (mark_release_materialization_failed db release).1 else db)
unfolding mark_release_materialization_failed
marked-IsSafe db release true s = record { case_keys = s.case_keys; reviewed = s.reviewed }
marked-IsSafe db release false s = s

pub fail-IsSafe :
    (db : Db) (release : Release) (permanent : Bool)
    → IsSafe db
    → Ensures IsSafe (fail_release db release permanent)
unfolding fail_release append_audit_event
fail-IsSafe db release permanent s =
    let s' = marked-IsSafe db release permanent s in
    Ensures-bind _ _
      λ snapshot _. Ensures-ok _ (record { case_keys = s'.case_keys; reviewed = s'.reviewed })

intent-IsSafe :
    (db db1 : Db) (release : Release) (intent_id : Option ℕ) (now : ℕ)
    → IsSafe db
    → IsSafe db1
    → IsSafe (finish_intent db db1 release intent_id now)
unfolding finish_intent
intent-IsSafe db db1 release none now s t = t
intent-IsSafe db db1 release (some id) now s t =
    committed-IsSafe _ _ _ (committed-IsSafe _ db _ s (fail-IsSafe db1 release true t))
      (finalize-IsSafe db1 id now t)

pub finish-IsSafe :
    (db : Db) (r : Release) (manifest bundle signature provenance : ℕ) (intent_id : Option ℕ)
    (now : ℕ)
    → IsSafe db
    → IsSafe (finish_materialization db r manifest bundle signature provenance intent_id now)
unfolding finish_materialization
finish-IsSafe db r manifest bundle signature provenance intent_id now s =
    let ready = ready-IsSafe db r manifest bundle signature provenance now s in
    committed-IsSafe _ db _ s
      (record { at = λ x q. intent-IsSafe db x.1 x.0 intent_id now s (ready.at x q) })
