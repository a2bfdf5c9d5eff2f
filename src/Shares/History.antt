-- ===== src/Shares/History.antt =====
-- Histories of share links.
use infinitas_skill.Prelude.{
  ℕ, ◌+◌, ◌≤◌, ◌<◌, ◌&&◌, ◌==◌, ==_iff, if◌then◌else◌, inl, inr, ◌⊎◌, Bool-cases, String, Bool,
  true, false, Option, some, List, [], ◌∷◌, ◌≡◌, ◌≢◌, refl, sym, ◌∙◌, subst, eq_iff, arith,
}
use infinitas_skill.Prelude.Text.{Text}
use infinitas_skill.Prelude.Result.{Result, Error, ok, err, Ensures}
use infinitas_skill.Prelude.Table.{get, next_id, get-key, get-put_self, get-put_ne}
use infinitas_skill.Shares.Model.{AccessGrant, Store, Hashing, Actor, grant_row}
use infinitas_skill.Shares.Links.{
  share_state, usable, create_share_link, revoke_share_link, resolve_share_link,
}
use infinitas_skill.Shares.Limits.{create-adds, revoke-keeps, resolve-Resolved}

-- A call of a client, with the times of the server and its random secret
pub data Call : Type 0 where
  creating : ℕ → Text → Text → Option ℕ → Option ℕ → Actor → Text → ℕ → Call
  revoking : ℕ → Actor → ℕ → Call
  resolving : ℕ → Text → Text → Text → ℕ → ℕ → Call

-- The state after a request: a failed one is rolled back.
committed : {A : Type 0} → Store → Result (A × Store) → Store
committed s (ok (a, s')) = s'
committed s (err e) = s

unfoldable pub serve : Hashing → Store → Call → Store
unfolding committed
serve h s (creating release_id name password days max_uses actor secret now) =
    committed s (create_share_link h s release_id name password days max_uses actor secret now)
serve h s (revoking share_id actor now) = committed s (revoke_share_link s share_id actor now)
serve h s (resolving share_id password secret token checked used) =
    committed s (resolve_share_link h s share_id password secret token checked used)

abbrev pub is_ok {ℓ} : {A : Type ℓ} → Result A → Bool
is_ok (ok a) = true
is_ok (err e) = false

Result-cases : {A : Type 0} (r : Result A) → ((a : A) × (r ≡ ok a)) ⊎ ((e : Error) × (r ≡ err e))
Result-cases (ok a) = inl (a, refl)
Result-cases (err e) = inr (e, refl)

-- Whether the call resolves the link
unfoldable pub resolves : ℕ → Hashing → Store → Call → Bool
resolves id h s (resolving share_id password secret token checked used) =
    share_id == id && is_ok (resolve_share_link h s share_id password secret token checked used)
resolves id h s _ = false

-- How often the link is resolved in a history
unfoldable pub uses : ℕ → Hashing → Store → List Call → ℕ
unfolding resolves serve
uses id h s [] = 0
uses id h s (c ∷ calls) =
    let rest = uses id h (serve h s c) calls in if resolves id h s c then rest + 1 else rest

get-lt : (i : ℕ) (t : List AccessGrant) (g : AccessGrant) → get i t ≡ some g → i < next_id t
unfolding get next_id
get-lt i [] g h = absurd (cc h)
get-lt i (b ∷ t) g h = elim (Bool-cases (b.id == i)) [
  | inl e ↦ ground (arith, e)
  | inr e ↦ ground (arith, get-lt i t g (rw e at h))
]

-- After a call, the row of the link with its uses, `n` more than before
abbrev Used : ℕ → ℕ → AccessGrant → ℕ → Store → Type 0
Used id limit g n s' =
    (g' : AccessGrant) × (get id s'.grants ≡ some g')
    × (g'.usage_limit ≡ some limit)
    × (g'.usage_count ≡ g.usage_count + n)
    × (g'.usage_count ≤ limit)

module _ (h : Hashing) (s : Store) (id limit : ℕ) (g : AccessGrant)
    (found : get id s.grants ≡ some g) (limited : g.usage_limit ≡ some limit)
    (within : g.usage_count ≤ limit) where
  same-Used : (s' : Store) → get id s'.grants ≡ some g → Used id limit g 0 s'
  same-Used s' e = (g, e, limited, omega arith, within)

  committed-Used :
      {A : Type 0} (r : Result (A × Store))
      → Ensures (λ r. Used id limit g 0 r.1) r
      → Used id limit g 0 (committed s r)
  unfolding committed
  committed-Used (ok (a, s')) e = e.at (a, s') refl
  committed-Used (err x) e = same-Used s found

  create-Used :
      (release_id : ℕ) (name password : Text) (days max_uses : Option ℕ) (actor : Actor)
      (secret : Text) (now : ℕ)
      → Ensures
          (λ r. Used id limit g 0 r.1)
          (create_share_link h s release_id name password days max_uses actor secret now)
  unfolding get
  create-Used release_id name password days max_uses actor secret now = record {
    at = λ r q.
        let (new, rows, fresh) =
          (create-adds h s release_id name password days max_uses actor secret now).at r q in
        let other : (new.id == id) ≡ false = ground (arith, fresh, get-lt id s.grants g found) in
        let there : get id (new ∷ s.grants) ≡ some g = rw other found in
        same-Used r.1 (subst (λ t. get id t ≡ some g) (sym rows) there);
  }

  revoke-Used :
      (share_id : ℕ) (actor : Actor) (now : ℕ)
      → Ensures (λ r. Used id limit g 0 r.1) (revoke_share_link s share_id actor now)
  revoke-Used share_id actor now = record {
    at = λ r q.
        let (old, old_found, change) = (revoke-keeps s share_id actor now).at r q in
        let k : old.id ≡ share_id = get-key share_id s.grants old old_found in
        let new : AccessGrant = record old { state = "revoked" } in
        elim change [
          | inl rows ↦ same-Used r.1 (subst (λ t. get id t ≡ some g) (sym rows) found)
          | inr rows ↦ elim (Bool-cases (share_id == id)) [
            | inr n ↦
                let apart : new.id ≢ id = λ e. absurd (ground (arith, n, k, e)) in
                same-Used r.1 (
                  subst (λ t. get id t ≡ some g) (sym rows)
                    (get-put_ne new id s.grants apart ∙ found))
            | inl e ↦
                let one : share_id ≡ id = (==_iff share_id id).0 e in
                let at_id : get id s.grants ≡ some old =
                  subst (λ i. get i s.grants ≡ some old) one old_found in
                let same : old ≡ g = cc (at_id, found) in
                let there = get-put_self new id s.grants old (k ∙ one) at_id in
                (
                  new,
                  subst (λ t. get id t ≡ some new) (sym rows) there,
                  subst (λ (x : AccessGrant). x.usage_limit ≡ some limit) (sym same) limited,
                  subst (λ (x : AccessGrant). x.usage_count ≡ g.usage_count + 0) (sym same)
                      (omega arith),
                  subst (λ (x : AccessGrant). x.usage_count ≤ limit) (sym same) within,
                )
          ]
        ];
  }

  resolve-Used :
      (share_id : ℕ) (password secret token : Text) (checked used : ℕ)
      → Ensures
          (λ r. Used id limit g (if share_id == id then 1 else 0) r.1)
          (resolve_share_link h s share_id password secret token checked used)
  unfolding usable
  resolve-Used share_id password secret token checked used = record {
    at = λ r q.
        let d = (resolve-Resolved h s share_id password secret token checked used).at r q in
        let old = d.before in
        let new : AccessGrant = record old { usage_count = old.usage_count + 1 } in
        let k : old.id ≡ share_id = get-key share_id s.grants old d.found in
        elim (Bool-cases (share_id == id)) [
          | inr n ↦
              let apart : new.id ≢ id = λ e. absurd (ground (arith, n, k, e)) in
              rw n (
                same-Used r.1 (
                  subst (λ t. get id t ≡ some g) (sym d.counted)
                    (get-put_ne new id s.grants apart ∙ found)))
          | inl e ↦
              let one : share_id ≡ id = (==_iff share_id id).0 e in
              let at_id : get id s.grants ≡ some old =
                subst (λ i. get i s.grants ≡ some old) one d.found in
              let same : old ≡ g = cc (at_id, found) in
              let there = get-put_self new id s.grants old (k ∙ one) at_id in
              let open_limit : old.usage_limit ≡ some limit =
                subst (λ (x : AccessGrant). x.usage_limit ≡ some limit) (sym same) limited in
              let below : old.usage_count < limit = ground (arith, d.was_usable, open_limit) in
              rw e (
                new,
                subst (λ t. get id t ≡ some new) (sym d.counted) there,
                open_limit,
                subst (λ (x : AccessGrant). x.usage_count + 1 ≡ g.usage_count + 1) (sym same) refl,
                (let bound : old.usage_count + 1 ≤ limit = omega arith in bound),
              )
        ];
  }

  serve-Used : (c : Call) → Used id limit g (if resolves id h s c then 1 else 0) (serve h s c)
  unfolding serve resolves
  serve-Used (creating release_id name password days max_uses actor secret now) =
      committed-Used _ (create-Used release_id name password days max_uses actor secret now)
  serve-Used (revoking share_id actor now) = committed-Used _ (revoke-Used share_id actor now)
  serve-Used (resolving share_id password secret token checked used) =
      elim (Result-cases (resolve_share_link h s share_id password secret token checked used)) [
        | inl (r, q) ↦
            let u = (resolve-Used share_id password secret token checked used).at r q in
            rw q (elim (Bool-cases (share_id == id)) [
              | inl e ↦ let u' = rw e at u in rw e u'
              | inr e ↦ let u' = rw e at u in rw e u'
            ])
        | inr (x, q) ↦ rw q (elim (Bool-cases (share_id == id)) [
          | inl e ↦ rw e (same-Used s found)
          | inr e ↦ rw e (same-Used s found)
        ])
      ]

-- In every history of creating, revoking and resolving share links, of any clients and at any times, a
-- link is resolved at most as often as its limit still allowed at the start.
pub uses-limit :
    (h : Hashing) (s : Store) (calls : List Call) (id limit : ℕ) (g : AccessGrant)
    → get id s.grants ≡ some g
    → g.usage_limit ≡ some limit
    → g.usage_count ≤ limit
    → g.usage_count + uses id h s calls ≤ limit
unfolding uses
uses-limit h s [] id limit g found limited within = omega arith
uses-limit h s (c ∷ calls) id limit g found limited within =
    let (g', found', limited', count, within') = serve-Used h s id limit g found limited within c in
    let rest = uses-limit h (serve h s c) calls id limit g' found' limited' within' in
    ground (arith, rest, count)

-- A link that resolves was active, is counted as used once more, and no other grant changes.
pub resolve_counts :
    (h : Hashing) (s : Store) (share_id : ℕ) (password secret token : Text) (checked used : ℕ)
    (r : (AccessGrant × Text) × Store)
    → resolve_share_link h s share_id password secret token checked used ≡ ok r
    → (g : AccessGrant) × (get share_id s.grants ≡ some g)
      × (share_state g checked ≡ "active")
      × (get share_id r.1.grants ≡ some (record g { usage_count = g.usage_count + 1 }))
      × ((i : ℕ) → i ≢ share_id → get i r.1.grants ≡ get i s.grants)
resolve_counts h s share_id password secret token checked used r e =
    let d = (resolve-Resolved h s share_id password secret token checked used).at r e in
    let g = d.before in
    let g' : AccessGrant = record g { usage_count = g.usage_count + 1 } in
    let k : g.id ≡ share_id = get-key share_id s.grants g d.found in
    (
      g,
      d.found,
      d.state,
      subst (λ t. get share_id t ≡ some g') (sym d.counted)
          (get-put_self g' share_id s.grants g k d.found),
      λ i n.
          subst (λ t. get i t ≡ get i s.grants) (sym d.counted)
            (get-put_ne g' i s.grants (λ q. n (sym q ∙ k))),
    )

never_ok : {A : Type 0} (r : Result A) → ((a : A) → r ≡ ok a → ⊥) → is_ok r ≡ false
never_ok (ok a) n = absurd (n a refl)
never_ok (err e) n = refl

revoked_state : (g : AccessGrant) (now : ℕ) → g.state ≡ "revoked" → share_state g now ≡ "revoked"
unfolding share_state
revoked_state g now h = rw h refl

revoked_not_active : (s : String) → s ≡ "revoked" → s ≢ "active"
revoked_not_active s h k = absurd (cc ((eq_iff "revoked" "active").1 (sym h ∙ k)))

-- A revoked link does not resolve, whatever the secret and whenever it is tried.
pub revoked_refused :
    (h : Hashing) (s : Store) (share_id : ℕ) (password secret token : Text) (checked used : ℕ)
    (g : AccessGrant)
    → get share_id s.grants ≡ some g
    → g.state ≡ "revoked"
    → is_ok (resolve_share_link h s share_id password secret token checked used) ≡ false
revoked_refused h s share_id password secret token checked used g e v = never_ok _ λ r q.
    let d = (resolve-Resolved h s share_id password secret token checked used).at r q in
    let same : g ≡ d.before = cc (e, d.found) in
    revoked_not_active (share_state g checked) (revoked_state g checked v)
      (subst (λ (x : AccessGrant). share_state x checked ≡ "active") (sym same) d.state)
