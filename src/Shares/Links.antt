-- ===== src/Shares/Links.antt =====
-- Issuing, revoking and resolving share links. Random secrets are arguments of the calls.
use infinitas_skill.Prelude.{
  ℕ, ◌+◌, ◌*◌, String, Bool, true, false, Option, none, some, List, [], ◌∷◌, not, ◌&&◌, ◌==◌, ltb,
  leb, str_eq, if◌then◌else◌, map, is_some,
}
use infinitas_skill.Prelude.Text.{Text, strip, text_beq}
use infinitas_skill.Prelude.Result.{
  not_found, forbidden, conflict, Result, ok, err, ensure, require, ◌>>=◌, ◌>>◌,
}
use infinitas_skill.Prelude.Table.{get, put, next_id, latest}
use infinitas_skill.Visibility.Model.{
  Db, Release, Skill, Principal, Exposure, Audience, grant, enabled, InstallMode, is_active,
  release_row, skill_row, principal_row, exposure_row,
}
use infinitas_skill.Visibility.Release.{get_release_or_404, assert_release_owner}
use infinitas_skill.Shares.Model.{
  AccessGrant, grant_row, Credential, credential_row, Store, Actor, Hashing,
}

-- The owner check of `_release_context`, where there is an actor
unfoldable pub assert_actor : Db → Release → Option Actor → Result (Unit {0})
unfolding assert_release_owner
assert_actor db release none = ok tt
assert_actor db release (some a) = assert_release_owner db release a.principal_id a.is_maintainer

abbrev skill_of : Db → Release → Option Skill
skill_of db release = elim release.skill_id [ none ↦ none | some i ↦ get i db.skills ]

-- `_release_context`
unfoldable pub release_context : Db → ℕ → Option Actor → Result (Release × Skill × Principal)
unfolding get_release_or_404 assert_actor
release_context db release_id actor = do
  release ← get_release_or_404 db release_id
  assert_actor db release actor
  skill ← require (skill_of db release) (conflict "release skill metadata missing")
  owner ← require (get skill.namespace_id db.principals) (conflict "release owner metadata missing")
  ok (release, skill, owner)

abbrev pub is_grant : Audience → Bool
is_grant grant = true
is_grant _ = false

abbrev pub is_enabled : InstallMode → Bool
is_enabled enabled = true
is_enabled _ = false

-- `_active_grant_exposure`
unfoldable pub active_grant_exposure : Db → ℕ → Result Exposure
active_grant_exposure db release_id =
    require
      (latest
        (λ (e : Exposure).
          (e.release_id == release_id && is_grant e.audience_type)
          && (is_active e.state && is_enabled e.install_mode))
        db.exposures)
      (conflict "active grant visibility required before issuing share links")

-- `_release_id_for_grant`
unfoldable pub release_id_for_grant : Db → AccessGrant → Result ℕ
release_id_for_grant db g = do
  exposure ← require (get g.exposure_id db.exposures) (not_found "share link not found")
  ensure (is_grant exposure.audience_type) (not_found "share link not found")
  ok exposure.release_id

-- `_share_state`
unfoldable pub share_state : AccessGrant → ℕ → String
share_state g now =
    if not (str_eq g.state "") && not (str_eq g.state "active")
    then g.state
    else if elim g.expires_at [ none ↦ false | some t ↦ leb t now ]
    then "expired"
    else if elim g.usage_limit [ none ↦ false | some limit ↦ leb limit g.usage_count ]
    then "exhausted"
    else "active"

-- The newest credential of a grant that has a type: `_password_credential`, `_capability_credential`
unfoldable pub credential_of : String → ℕ → List Credential → Option Credential
credential_of type grant_id credentials =
    latest
      (λ (c : Credential).
        str_eq c.type type && elim c.grant_id [ none ↦ false | some i ↦ i == grant_id ])
      credentials

-- `_get_share_grant`
unfoldable pub get_share_grant : Store → ℕ → Result AccessGrant
get_share_grant s share_id = do
  g ← require (get share_id s.grants) (not_found "share link not found")
  ensure (str_eq g.grant_type "link") (not_found "share link not found")
  ok g

abbrev is_empty : Text → Bool
is_empty [] = true
is_empty (c ∷ s) = false

new_credential : Store → ℕ → String → Text → Option ℕ → Credential
new_credential s grant_id type hashed expires_at = record {
  id = next_id s.credentials;
  grant_id = some grant_id;
  type = type;
  hashed_secret = hashed;
  expires_at = expires_at;
  revoked_at = none;
}

-- `create_share_link`; `secret` is the random capability. Returns the grant and the secret to show.
unfoldable pub create_share_link :
    Hashing
    → Store
    → ℕ
    → Text
    → Text
    → Option ℕ
    → Option ℕ
    → Actor
    → Text
    → ℕ
    → Result ((AccessGrant × Option Text) × Store)
unfolding release_context active_grant_exposure strip new_credential
create_share_link h s release_id name password expires_in_days max_uses actor secret now = do
  context ← release_context s.db release_id (some actor)
  exposure ← active_grant_exposure s.db release_id
  let raw_password = strip password
  let expires_at : Option ℕ = elim expires_in_days [
    | none ↦ none
    | some days ↦ some (now + days * 86400)
  ]
  let g : AccessGrant = record {
    id = next_id s.grants;
    exposure_id = exposure.id;
    grant_type = "link";
    subject_principal_id = none;
    name = strip name;
    state = "active";
    expires_at = expires_at;
    usage_limit = max_uses;
    usage_count = 0;
    created_by_principal_id = some actor.principal_id;
  }
  let credential =
      if is_empty raw_password
      then new_credential s g.id "share_capability" (h.hash_token secret) expires_at
      else new_credential s g.id "share_password" (h.hash_share_password raw_password) expires_at
  ok (
    (g, if is_empty raw_password then some secret else none),
    record s {
      grants = g ∷ s.grants;
      credentials = credential ∷ s.credentials;
      audit =
          record {
            aggregate_id = g.id;
            event_type = "share_link.created";
            owner_principal_id = some actor.principal_id;
            release_id = release_id;
          }
          ∷ s.audit;
    },
  )

-- The credentials of a grant that are not revoked yet are revoked.
unfoldable pub revoke_credential : ℕ → ℕ → Credential → Credential
revoke_credential grant_id now c =
    if elim c.grant_id [ none ↦ false | some i ↦ i == grant_id ] && not (is_some c.revoked_at)
    then record c { revoked_at = some now }
    else c

-- `revoke_share_link`
unfoldable pub revoke_share_link : Store → ℕ → Actor → ℕ → Result (AccessGrant × Store)
unfolding get_share_grant release_id_for_grant release_context revoke_credential
revoke_share_link s share_id actor now = do
  g ← get_share_grant s share_id
  release_id ← release_id_for_grant s.db g
  context ← release_context s.db release_id (some actor)
  let g' = record g { state = "revoked" }
  if str_eq g.state "revoked"
      then ok (g, s)
      else ok (
        g',
        record s {
          grants = put g' s.grants;
          credentials = map (revoke_credential g.id now) s.credentials;
          audit =
              record {
                aggregate_id = g.id;
                event_type = "share_link.revoked";
                owner_principal_id = some actor.principal_id;
                release_id = release_id;
              }
              ∷ s.audit;
        },
      )

-- The check of the secret in `resolve_share_link`
unfoldable pub assert_secret : Hashing → Store → ℕ → Text → Text → Result (Unit {0})
unfolding credential_of strip
assert_secret h s grant_id password secret =
    elim (credential_of "share_password" grant_id s.credentials) [
      | some c ↦
          ensure (h.verify_password password c.hashed_secret)
            (forbidden "share link password is invalid")
      | none ↦ elim (credential_of "share_capability" grant_id s.credentials) [
        | none ↦ err (forbidden "share link capability is required")
        | some c ↦
            if is_empty (strip secret)
            then err (forbidden "share link capability is required")
            else ensure (text_beq c.hashed_secret (h.hash_token (strip secret)))
                (forbidden "share link capability is invalid")
      ]
    ]

-- The `WHERE` of the update in `resolve_share_link`
unfoldable pub usable : AccessGrant → ℕ → Bool
usable g now =
    str_eq g.state "active"
    && (elim g.expires_at [ none ↦ true | some t ↦ ltb now t ]
        && elim g.usage_limit [ none ↦ true | some limit ↦ ltb g.usage_count limit ])

-- `resolve_share_link`: `checked` and `used` are the times of its two tests, `token` the random token
-- that it returns.
unfoldable pub resolve_share_link :
    Hashing → Store → ℕ → Text → Text → Text → ℕ → ℕ → Result ((AccessGrant × Text) × Store)
unfolding get_share_grant release_id_for_grant share_state assert_secret release_context usable
    new_credential
resolve_share_link h s share_id password secret token checked used = do
  g ← get_share_grant s share_id
  listed_id ← release_id_for_grant s.db g
  ensure (str_eq (share_state g checked) "active") (conflict (share_state g checked))
  assert_secret h s g.id password secret
  release_id ← release_id_for_grant s.db g
  context ← release_context s.db release_id none
  ensure (usable g used) (conflict (share_state g used))
  let g' = record g { usage_count = g.usage_count + 1 }
  let credential = new_credential s g.id "grant_token" (h.hash_token token) g.expires_at
  ok (
    (g', token),
    record s {
      grants = put g' s.grants;
      credentials = credential ∷ s.credentials;
      audit =
          record {
            aggregate_id = g.id;
            event_type = "share_link.resolved";
            owner_principal_id = g.created_by_principal_id;
            release_id = release_id;
          }
          ∷ s.audit;
    },
  )
