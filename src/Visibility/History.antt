-- ===== src/Visibility/History.antt =====
-- Sequences of requests to the visibility services. A request that raises is rolled back, so it
-- leaves the database as it was (`get_db` of server/db.py).
use infinitas_skill.Prelude.{
  ℕ, String, Bool, true, Option, List, [], ◌∷◌, any, ◌≡◌, All, All-mono, arith, Option-cases, inl,
  inr, ◌⊎◌, Bool-cases, ◌==◌,
}
use infinitas_skill.Prelude.Text.{Text}
use infinitas_skill.Prelude.Result.{Ensures, Ensures-ok, Ensures-bind}
use infinitas_skill.Prelude.Table.{latest}
use infinitas_skill.Visibility.Model.{
  Db, Exposure, Release, ServicePrincipal, AgentPublishIntent, ActorRef, ReviewMode, public, active,
  release_row,
}
use infinitas_skill.Visibility.Release.{create_or_get_release}
use infinitas_skill.Visibility.Exposure.{
  Caller, CreateRequest, PatchRequest, create_exposure, patch_exposure, activate_exposure,
  revoke_exposure,
}
use infinitas_skill.Visibility.Reviewing.{create_review_case, create_review_decision}
use infinitas_skill.Visibility.Publishing.{committed, fail_release, finish_materialization}
use infinitas_skill.Visibility.Safety.Published.{committed-IsSafe, fail-IsSafe, finish-IsSafe}
use infinitas_skill.Visibility.Safety.{IsSafe, approved_of, is_agent_published}
use infinitas_skill.Visibility.Safety.Calls.{create-IsSafe}
use infinitas_skill.Visibility.Safety.Changes.{
  patch-IsSafe, activate-IsSafe, revoke-IsSafe, create_case-IsSafe, decision-IsSafe,
}

-- The time of a request comes last. `agents` stands for what the services for agents write to their
-- two tables, whatever it is; `materialized` is the worker's transaction, with the intent of its job.
pub data Request : Type 0 where
  release : ℕ → ℕ → Bool → Option ActorRef → Request
  agents : List ServicePrincipal → List AgentPublishIntent → Request
  materialized : Release → ℕ → ℕ → ℕ → ℕ → Option ℕ → ℕ → Request
  materialization_failed : Release → Bool → Request
  create : ℕ → Caller → CreateRequest → ℕ → Request
  patch : ℕ → Caller → PatchRequest → Request
  activate : ℕ → Caller → ℕ → Request
  revoke : ℕ → Caller → ℕ → Request
  open_case : ℕ → ℕ → Bool → Option ReviewMode → Request
  decision : ℕ → ℕ → Bool → Text → String → ℕ → Request

unfoldable pub serve : Db → Request → Db
serve db (release version p is_maintainer actor) =
    committed (λ r. r.2) db (create_or_get_release db version p is_maintainer actor)
serve db (agents services intents) = record db { services = services; intents = intents }
serve db (materialized r manifest bundle signature provenance intent_id now) =
    finish_materialization db r manifest bundle signature provenance intent_id now
serve db (materialization_failed r permanent) = committed (λ d. d) db (fail_release db r permanent)
serve db (create id caller payload now) =
    committed (λ r. r.1) db (create_exposure db id caller payload now)
serve db (patch id caller payload) = committed (λ r. r.1) db (patch_exposure db id caller payload)
serve db (activate id caller now) = committed (λ r. r.1) db (activate_exposure db id caller now)
serve db (revoke id caller now) = committed (λ r. r.1) db (revoke_exposure db id caller now)
serve db (open_case id p is_maintainer mode) =
    committed (λ r. r.1) db (create_review_case db id p is_maintainer mode)
serve db (decision id p is_maintainer word note now) =
    committed (λ r. r.2) db (create_review_decision db id p is_maintainer word note now)

unfoldable pub serve_all : Db → List Request → Db
unfolding serve
serve_all db [] = db
serve_all db (r ∷ rs) = serve_all (serve db r) rs

create_release-IsSafe :
    (db : Db) (version p : ℕ) (is_maintainer : Bool) (actor : Option ActorRef)
    → IsSafe db
    → Ensures (λ r. IsSafe r.2) (create_or_get_release db version p is_maintainer actor)
unfolding create_or_get_release
create_release-IsSafe db version p is_maintainer actor s = Ensures-bind _ _ λ v _.
    Ensures-bind _ _ λ skill _. Ensures-bind _ _ λ _ _.
      elim (Option-cases (latest (λ (r : Release). r.skill_version_id == v.id) db.releases)) [
        | inl n ↦ rw n (Ensures-ok _ (record { case_keys = s.case_keys; reviewed = s.reviewed }))
        | inr (r, n) ↦ rw n (Ensures-ok _ s)
      ]

serve-IsSafe : (db : Db) (r : Request) → IsSafe db → IsSafe (serve db r)
unfolding serve
serve-IsSafe db (create id caller payload now) s =
    committed-IsSafe _ db _ s (create-IsSafe db id caller payload now s)
serve-IsSafe db (patch id caller payload) s =
    committed-IsSafe _ db _ s (patch-IsSafe db id caller payload s)
serve-IsSafe db (activate id caller now) s =
    committed-IsSafe _ db _ s (activate-IsSafe db id caller now s)
serve-IsSafe db (revoke id caller now) s =
    committed-IsSafe _ db _ s (revoke-IsSafe db id caller now s)
serve-IsSafe db (open_case id p is_maintainer mode) s =
    committed-IsSafe _ db _ s (create_case-IsSafe db id p is_maintainer mode s)
serve-IsSafe db (decision id p is_maintainer word note now) s =
    committed-IsSafe _ db _ s (decision-IsSafe db id p is_maintainer word note now s)
serve-IsSafe db (release version p is_maintainer actor) s =
    committed-IsSafe (λ r. r.2) db (create_or_get_release db version p is_maintainer actor) s
      (create_release-IsSafe db version p is_maintainer actor s)
serve-IsSafe db (agents services intents) s = record {
  case_keys = s.case_keys;
  reviewed = s.reviewed;
}
serve-IsSafe db (materialized r manifest bundle signature provenance intent_id now) s =
    finish-IsSafe db r manifest bundle signature provenance intent_id now s
serve-IsSafe db (materialization_failed r permanent) s =
    committed-IsSafe (λ d. d) db (fail_release db r permanent) s (fail-IsSafe db r permanent s)

serve_all-IsSafe : (db : Db) (rs : List Request) → IsSafe db → IsSafe (serve_all db rs)
unfolding serve_all
serve_all-IsSafe db [] s = s
serve_all-IsSafe db (r ∷ rs) s = serve_all-IsSafe (serve db r) rs (serve-IsSafe db r s)

-- From a database that is safe (case keys are distinct, a public exposure requires a blocking review or
-- was published for an agent, and an active exposure that requires one has an approved case), after
-- any requests, an active public exposure has a review case that was approved, or was published by
-- the worker for an agent whose policy had "auto_public_publish".
pub active_public-approved :
    (db : Db) (rs : List Request)
    → IsSafe db
    → All
        (λ (e : Exposure).
          e.audience_type ≡ public
          → e.state ≡ active
          → (any (approved_of e.id) (serve_all db rs).cases ≡ true)
            ⊎ (is_agent_published e.policy_snapshot ≡ true))
        (serve_all db rs).exposures
active_public-approved db rs s =
    All-mono _ _ _
      (λ e r a b. elim (Bool-cases (is_agent_published e.policy_snapshot)) [
        | inl p ↦ inr p
        | inr p ↦ inl (ground arith)
      ])
      (serve_all-IsSafe db rs s).reviewed
