-- ===== src/Shares/Examples.antt =====
-- The theorems on share links at concrete inputs.
use infinitas_skill.Prelude.{
  List, arith, ◌≤◌, ℕ, true, String, ◌+◌, none, some, [], ◌∷◌, ◌++◌, ◌≡◌, ◌≢◌, refl, false,
}
use infinitas_skill.Prelude.Text.{codes}
use infinitas_skill.Prelude.Result.{ok, ◌>>=◌}
use infinitas_skill.Prelude.Table.{get, put, next_id, latest}
use infinitas_skill.Visibility.Model.{
  of_request, Db, Release, Exposure, ready, private, grant, no_review, enabled, listed, active,
}
use infinitas_skill.Shares.Model.{AccessGrant, Store, Hashing, Actor, grant_row}
use infinitas_skill.Shares.Links.{share_state, create_share_link, resolve_share_link}
use infinitas_skill.Shares.Access.{grant_allows_release, revoke_share_link-closed}
use infinitas_skill.Shares.Links.{revoke_share_link}
use infinitas_skill.Shares.History.{
  Call, creating, revoking, resolving, uses, uses-limit, resolve_counts, is_ok, revoked_refused,
}

abbrev shown : Exposure
shown = record {
  id = 4;
  release_id = 1;
  audience_type = grant;
  listing_mode = listed;
  install_mode = enabled;
  review_requirement = no_review;
  state = active;
  requested_by_principal_id = some 1;
  policy_snapshot = of_request (record {
    audience_type = grant;
    requested_review_mode = no_review;
    review_requirement = no_review;
    platform_compatibility = none;
  });
  activated_at = some 60;
  ended_at = none;
}

abbrev release : Release
release = record {
  id = 1;
  skill_version_id = 1;
  skill_id = some 1;
  state = ready;
  manifest_artifact_id = some 1;
  bundle_artifact_id = some 2;
  signature_artifact_id = some 3;
  provenance_artifact_id = some 4;
  ready_at = some 50;
  canonical_runtime = none;
  created_by_principal_id = some 1;
}

abbrev tables : Db
tables = record {
  principals = (record { id = 1; slug = "alice" }) ∷ [];
  teams = [];
  memberships = [];
  skills = (record { id = 1; namespace_id = 1; default_visibility_profile = some private }) ∷ [];
  versions = (record { id = 1; skill_id = 1 }) ∷ [];
  releases = release ∷ [];
  exposures = shown ∷ [];
  policies = [];
  cases = [];
  decisions = [];
  audit = [];
  services = [];
  intents = [];
}

abbrev link : String → ℕ → AccessGrant
link state used = record {
  id = 9;
  exposure_id = 4;
  grant_type = "link";
  subject_principal_id = none;
  name = codes "preview";
  state = state;
  expires_at = some 1000;
  usage_limit = some 2;
  usage_count = used;
  created_by_principal_id = some 1;
}

abbrev store : String → ℕ → Store
store state used = record {
  db = tables;
  grants = link state used ∷ [];
  credentials =
      record {
        id = 3;
        grant_id = some 9;
        type = "share_capability";
        hashed_secret = codes "#s";
        expires_at = some 1000;
        revoked_at = none;
      }
      ∷ [];
  audit = [];
}

-- A stand-in for the hash functions
abbrev plain : Hashing
plain = record {
  hash_share_password = λ s. codes "#" ++ s;
  verify_password = λ s t. false;
  hash_token = λ s. codes "#" ++ s;
}

abbrev owner : Actor
owner = record { principal_id = 1; is_maintainer = false }

-- The one use that is left is made, and the other call fails.
abbrev calls : List Call
calls =
    resolving 9 [] (codes "s") (codes "t") 100 101
    ∷ creating 1 (codes "two") [] none (some 5) owner (codes "r") 120
    ∷ resolving 9 [] (codes "s") (codes "u") 110 111
    ∷ revoking 9 owner 130
    ∷ []

one_use : uses 9 plain (store "active" 1) calls ≡ 1
unfolding uses create_share_link resolve_share_link revoke_share_link ◌>>=◌ get put next_id latest
one_use = refl

uses-limit_example : 1 + uses 9 plain (store "active" 1) calls ≤ 2
unfolding get
uses-limit_example =
    uses-limit plain (store "active" 1) calls 9 2 (link "active" 1) refl refl (omega arith)

resolved : Store
unfolding ◌>>=◌
resolved = record (store "active" 1) {
  grants = link "active" 2 ∷ [];
  credentials =
      record {
        id = 4;
        grant_id = some 9;
        type = "grant_token";
        hashed_secret = codes "#t";
        expires_at = some 1000;
        revoked_at = none;
      }
      ∷ (store "active" 1).credentials;
  audit =
      record {
        aggregate_id = 9;
        event_type = "share_link.resolved";
        owner_principal_id = some 1;
        release_id = 1;
      }
      ∷ [];
}

resolves :
    resolve_share_link plain (store "active" 1) 9 [] (codes "s") (codes "t") 100 101
    ≡ ok ((link "active" 2, codes "t"), resolved)
unfolding resolved resolve_share_link ◌>>=◌ get put latest next_id
resolves = refl

resolve_counts_example :
    (g : AccessGrant) × (get 9 (store "active" 1).grants ≡ some g)
    × (share_state g 100 ≡ "active")
    × (get 9 resolved.grants ≡ some (record g { usage_count = g.usage_count + 1 }))
    × ((i : ℕ) → i ≢ 9 → get i resolved.grants ≡ get i (store "active" 1).grants)
resolve_counts_example =
    resolve_counts plain (store "active" 1) 9 [] (codes "s") (codes "t") 100 101
      ((link "active" 2, codes "t"), resolved) resolves

has_revoked : get 9 (store "revoked" 1).grants ≡ some (link "revoked" 1)
unfolding get
has_revoked = refl

revoked_refused_example :
    is_ok (resolve_share_link plain (store "revoked" 1) 9 [] (codes "s") (codes "t") 100 101)
    ≡ false
revoked_refused_example =
    revoked_refused plain (store "revoked" 1) 9 [] (codes "s") (codes "t") 100 101
      (link "revoked" 1) has_revoked refl

revoked_store : Store
revoked_store = record (store "active" 1) {
  grants = link "revoked" 1 ∷ [];
  credentials =
      record {
        id = 3;
        grant_id = some 9;
        type = "share_capability";
        hashed_secret = codes "#s";
        expires_at = some 1000;
        revoked_at = some 200;
      }
      ∷ [];
  audit =
      record {
        aggregate_id = 9;
        event_type = "share_link.revoked";
        owner_principal_id = some 1;
        release_id = 1;
      }
      ∷ [];
}

revokes : revoke_share_link (store "active" 1) 9 owner 200 ≡ ok (link "revoked" 1, revoked_store)
unfolding revoked_store revoke_share_link ◌>>=◌ get put
revokes = refl

opened_before : grant_allows_release (store "active" 1) 9 1 ≡ true
unfolding grant_allows_release get
opened_before = refl

revoke_share_link-closed_example : grant_allows_release revoked_store 9 1 ≡ false
revoke_share_link-closed_example =
    revoke_share_link-closed (store "active" 1) 9 owner 200 1 (link "revoked" 1, revoked_store)
      revokes
