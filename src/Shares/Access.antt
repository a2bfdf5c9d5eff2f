-- ===== src/Shares/Access.antt =====
-- server/modules/access/service.py: what a grant opens, and that a revoked one opens nothing.
use infinitas_skill.Prelude.{ℕ, Bool, false, none, some, ◌≡◌, refl, str_eq, eq_iff, ◌&&◌, ◌==◌}
use infinitas_skill.Prelude.Result.{ok, Ensures, Ensures-ok, Ensures-if, Ensures-bind}
use infinitas_skill.Prelude.Table.{get, get-key, get-put_self}
use infinitas_skill.Visibility.Model.{is_active, exposure_row}
use infinitas_skill.Shares.Model.{AccessGrant, Store, Actor, grant_row}
use infinitas_skill.Shares.Links.{is_grant, is_enabled, revoke_share_link}
use infinitas_skill.Shares.Limits.{get_share_grant-get}

-- `grant_allows_release`
unfoldable pub grant_allows_release : Store → ℕ → ℕ → Bool
grant_allows_release s grant_id release_id = elim (get grant_id s.grants) [
  | none ↦ false
  | some g ↦ str_eq g.state "active" && elim (get g.exposure_id s.db.exposures) [
    | none ↦ false
    | some e ↦
        (is_grant e.audience_type && (is_active e.state && is_enabled e.install_mode))
        && e.release_id == release_id
  ]
]

closed :
    (s : Store) (grant_id release_id : ℕ) (g : AccessGrant)
    → get grant_id s.grants ≡ some g
    → g.state ≡ "revoked"
    → grant_allows_release s grant_id release_id ≡ false
unfolding grant_allows_release
closed s grant_id release_id g e v = rw (e, grant_allows_release, v) refl

revoke-closed :
    (s : Store) (share_id : ℕ) (actor : Actor) (now release_id : ℕ)
    → Ensures
        (λ r. grant_allows_release r.1 share_id release_id ≡ false)
        (revoke_share_link s share_id actor now)
unfolding revoke_share_link
revoke-closed s share_id actor now release_id = Ensures-bind _ _ λ g e.
    let found = (get_share_grant-get s share_id).at g e in
    let k = get-key share_id s.grants g found in
    Ensures-bind _ _ λ listed_id r. Ensures-bind _ _ λ context c.
      Ensures-if (str_eq g.state "revoked") _ _
        (λ q. Ensures-ok _ (closed s share_id release_id g found ((eq_iff g.state "revoked").0 q)))
        (λ q. Ensures-ok _ (
          closed _ share_id release_id (record g { state = "revoked" })
            (get-put_self (record g { state = "revoked" }) share_id s.grants g k found) refl))

-- Once revoking a share link has succeeded, its grant opens no release.
pub revoke_share_link-closed :
    (s : Store) (share_id : ℕ) (actor : Actor) (now release_id : ℕ) (r : AccessGrant × Store)
    → revoke_share_link s share_id actor now ≡ ok r
    → grant_allows_release r.1 share_id release_id ≡ false
revoke_share_link-closed s share_id actor now release_id r =
    (revoke-closed s share_id actor now release_id).at r
