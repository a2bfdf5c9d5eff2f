-- ===== src/Shares/Limits.antt =====
-- The uses of a share link.
use infinitas_skill.Prelude.{
  ℕ, ◌∷◌, ◌⊎◌, inl, inr, ◌+◌, true, Option, some, ◌≡◌, refl, str_eq, eq_iff,
}
use infinitas_skill.Prelude.Text.{Text}
use infinitas_skill.Prelude.Result.{
  Ensures, Ensures-ok, Ensures-if, Ensures-bind, Ensures-guard, Ensures-require,
}
use infinitas_skill.Prelude.Table.{get, next_id, put}
use infinitas_skill.Shares.Model.{AccessGrant, Store, Hashing, Actor, grant_row}
use infinitas_skill.Shares.Links.{
  share_state, usable, create_share_link, revoke_share_link, resolve_share_link, get_share_grant,
}

-- A new link is one more row, with an unused key.
pub create-adds :
    (h : Hashing) (s : Store) (release_id : ℕ) (name password : Text) (days max_uses : Option ℕ)
    (actor : Actor) (secret : Text) (now : ℕ)
    → Ensures
        (λ r. (g : AccessGrant) × (r.1.grants ≡ g ∷ s.grants) × (g.id ≡ next_id s.grants))
        (create_share_link h s release_id name password days max_uses actor secret now)
unfolding create_share_link
create-adds h s release_id name password days max_uses actor secret now =
    Ensures-bind _ _ λ context c. Ensures-bind _ _ λ exposure e. Ensures-ok _ (_, refl, refl)

pub get_share_grant-get :
    (s : Store) (share_id : ℕ)
    → Ensures (λ g. get share_id s.grants ≡ some g) (get_share_grant s share_id)
unfolding get_share_grant
get_share_grant-get s share_id =
    Ensures-require _ _ _ λ g e. Ensures-guard _ _ _ λ q. Ensures-ok g e

-- Revoking rewrites the row of the link and keeps its uses.
pub revoke-keeps :
    (s : Store) (share_id : ℕ) (actor : Actor) (now : ℕ)
    → Ensures
        (λ r.
          (g : AccessGrant) × (get share_id s.grants ≡ some g)
          × ((r.1.grants ≡ s.grants)
              ⊎ (r.1.grants ≡ put (record g { state = "revoked" }) s.grants)))
        (revoke_share_link s share_id actor now)
unfolding revoke_share_link get_share_grant
revoke-keeps s share_id actor now = Ensures-bind _ _ λ g e. Ensures-bind _ _ λ release_id r.
    Ensures-bind _ _ λ context c.
      let found = (get_share_grant-get s share_id).at g e in
      Ensures-if (str_eq g.state "revoked") _ _ (λ q. Ensures-ok _ (g, found, inl refl))
        (λ q. Ensures-ok _ (g, found, inr refl))

-- What a link that resolves was and becomes
pub record Resolved (s : Store) (share_id checked used : ℕ) (s' : Store) : Type 0 where
  pub before : AccessGrant
  pub found : get share_id s.grants ≡ some before
  pub state : share_state before checked ≡ "active"
  pub was_usable : usable before used ≡ true
  pub counted : s'.grants ≡ put (record before { usage_count = before.usage_count + 1 }) s.grants

pub resolve-Resolved :
    (h : Hashing) (s : Store) (share_id : ℕ) (password secret token : Text) (checked used : ℕ)
    → Ensures
        (λ r. Resolved s share_id checked used r.1)
        (resolve_share_link h s share_id password secret token checked used)
unfolding resolve_share_link get_share_grant
resolve-Resolved h s share_id password secret token checked used = Ensures-bind _ _ λ g e.
    Ensures-bind _ _ λ listed_id l. Ensures-guard _ _ _ λ a. Ensures-bind _ _ λ u k.
      Ensures-bind _ _ λ release_id r. Ensures-bind _ _ λ context c. Ensures-guard _ _ _ λ o.
        Ensures-ok _ (record {
          before = g;
          found = (get_share_grant-get s share_id).at g e;
          state = (eq_iff (share_state g checked) "active").0 a;
          was_usable = o;
          counted = refl;
        })
