-- ===== src/Access/Each.antt =====
-- The bulk queries decide for each release as it is decided alone.
use infinitas_skill.Prelude.{
  ℕ, Bool, true, false, none, some, List, [], ◌∷◌, ◌&&◌, ◌||◌, ◌==◌, ◌≡◌, refl, sym, ap, subst, ◌∙◌,
  any, map, select, str_eq, is_some, All, All-mono, Bool-cases, Option-cases, inl, inr, arith,
  ==_iff, ==-refl,
}
use infinitas_skill.Visibility.Model.{
  Exposure, Audience, private, authenticated, grant, public, is_active,
}
use infinitas_skill.Shares.Model.{AccessGrant, Store}
use infinitas_skill.Shares.Links.{is_grant, is_enabled}
use infinitas_skill.Shares.Access.{grant_allows_release}
use infinitas_skill.Access.Authz.{
  AccessContext, group_of, group_rows, grants_among, is_in, is_listed_grant, is_listed_exposure,
  build_active_grants_lookup, is_id, opens, release_is_accessible, can_access_releases,
  can_access_release,
}
use infinitas_skill.Access.Groups.{group_of-group_rows, any-select, any_same, select_same, every}

-- Whether an exposure opens its release, decided on the table of grants
abbrev pub opens_alone : Store → AccessContext → Audience → Exposure → Bool
opens_alone s context public e = true
opens_alone s context authenticated e =
    context.has_user
    || (str_eq context.credential_type "agent_token" && is_some context.principal_id)
opens_alone s context private e = elim context.principal_id [
  | none ↦ false
  | some p ↦ is_id e.requested_by_principal_id p
]
opens_alone s context grant e = elim context.principal_id [
  | none ↦ false
  | some p ↦
      any
        (λ (g : AccessGrant).
          (g.exposure_id == e.id && str_eq g.state "active") && is_id g.subject_principal_id p)
        s.grants
]

-- Whether a credential gives access to one release: the grant that it is bound to allows it, or one of
-- its exposures that is active and can be installed opens it.
abbrev pub may_access : Store → AccessContext → ℕ → Bool
may_access s context release_id = elim context.grant_id [
  | some grant_id ↦ grant_allows_release s grant_id release_id
  | none ↦
      any
        (λ (e : Exposure).
          (e.release_id == release_id && (is_active e.state && is_enabled e.install_mode))
          && opens_alone s context e.audience_type e)
        s.db.exposures
]

ids_within :
    (ids more : List ℕ)
    → ((i : ℕ) → is_in i ids ≡ true → is_in i more ≡ true)
    → All (λ i. is_in i more ≡ true) ids
unfolding is_in
ids_within [] more h = tt
ids_within (i ∷ ids) more h =
    (h i (ground (arith, ==-refl i)), ids_within ids more (λ j k. h j (ground (arith, k))))

abbrev grant_ids : List Exposure → List ℕ
grant_ids exposures =
    map (λ (e : Exposure). e.id) (select (λ (e : Exposure). is_grant e.audience_type) exposures)

grant_ids_within :
    (l more : List Exposure)
    → ((i : ℕ) → is_in i (grant_ids l) ≡ true → is_in i (grant_ids more) ≡ true)
    → All (λ (e : Exposure). is_grant e.audience_type ≡ true → is_in e.id (grant_ids more) ≡ true) l
unfolding is_in
grant_ids_within [] more h = tt
grant_ids_within (e ∷ l) more h = elim (Bool-cases (is_grant e.audience_type)) [
  | inl a ↦
      let h' = rw a at h in
      (
        (λ _. h' e.id (ground (arith, ==-refl e.id))),
        grant_ids_within l more (λ j k. h' j (ground (arith, k))),
      )
  | inr a ↦ let h' = rw a at h in ((λ b. absurd (cc (a, b))), grant_ids_within l more h')
]

-- The grants that are looked up for an exposure are those of the table.
grants_among-select :
    (s : Store) (ids : List ℕ) (i : ℕ)
    → is_in i ids ≡ true
    → group_of i (grants_among s ids)
      ≡ select (λ (g : AccessGrant). g.exposure_id == i) (select (is_listed_grant ids) s.grants)
unfolding grants_among group_of is_in
grants_among-select s [] i h = absurd (cc h)
grants_among-select s (j ∷ ids) i h =
    group_of-group_rows (λ (g : AccessGrant). g.exposure_id) i
      (select (is_listed_grant (j ∷ ids)) s.grants) []

-- Of the grants of a principal for an exposure, none is missed by the query.
granted-alone :
    (s : Store) (ids : List ℕ) (i p : ℕ)
    → is_in i ids ≡ true
    → any (λ (g : AccessGrant). is_id g.subject_principal_id p) (group_of i (grants_among s ids))
      ≡ any
          (λ (g : AccessGrant).
            (g.exposure_id == i && str_eq g.state "active") && is_id g.subject_principal_id p)
          s.grants
unfolding is_listed_grant
granted-alone s ids i p h =
    let named = λ (g : AccessGrant). is_id g.subject_principal_id p in
    let same = λ (g : AccessGrant). g.exposure_id == i in
    ap (any named) (grants_among-select s ids i h)
    ∙ (any-select named same (select (is_listed_grant ids) s.grants)
        ∙ (any-select (λ g. same g && named g) (is_listed_grant ids) s.grants
            ∙ any_same _ _ s.grants (every _ (λ g. one g) s.grants)))
  where
    one :
        (g : AccessGrant)
        → (is_listed_grant ids g && ((g.exposure_id == i) && is_id g.subject_principal_id p))
          ≡ ((g.exposure_id == i && str_eq g.state "active") && is_id g.subject_principal_id p)
    one g = elim (Bool-cases (g.exposure_id == i)) [
      | inl e ↦
          let q : is_in g.exposure_id ids ≡ true =
            subst (λ j. is_in j ids ≡ true) (sym ((==_iff g.exposure_id i).0 e)) h in
          ground (arith, e, q)
      | inr e ↦ ground (arith, e)
    ]

opens-alone :
    (s : Store) (context : AccessContext) (exposures : List Exposure) (e : Exposure) (a : Audience)
    → (is_grant a ≡ true → is_in e.id (grant_ids exposures) ≡ true)
    → opens (build_active_grants_lookup s exposures context.principal_id) context a e
      ≡ opens_alone s context a e
unfolding opens build_active_grants_lookup
opens-alone s context exposures e public h = refl
opens-alone s context exposures e authenticated h = refl
opens-alone s context exposures e private h = refl
opens-alone s context exposures e grant h = elim (Option-cases context.principal_id) [
  | inl n ↦ rw n refl
  | inr (p, n) ↦ rw n (granted-alone s (grant_ids exposures) e.id p (h refl))
]

-- A release that is asked for has access exactly if it has alone.
accessible-alone :
    (s : Store) (context : AccessContext) (ids : List ℕ) (i : ℕ)
    → context.grant_id ≡ none
    → is_in i ids ≡ true
    → release_is_accessible
        (group_of i (
          group_rows
            (λ (e : Exposure). e.release_id)
            (select (is_listed_exposure ids) s.db.exposures)
            []))
        (build_active_grants_lookup s
          (select (is_listed_exposure ids) s.db.exposures)
          context.principal_id)
        context
      ≡ may_access s context i
unfolding release_is_accessible is_listed_exposure group_of
accessible-alone s context ids i n h =
    let l = select (is_listed_exposure ids) s.db.exposures in
    let lookup = build_active_grants_lookup s l context.principal_id in
    let test = λ (e : Exposure). opens lookup context e.audience_type e in
    let of_release = λ (e : Exposure). e.release_id == i in
    let alone = λ (e : Exposure). of_release e && opens_alone s context e.audience_type e in
    ap (any test) (group_of-group_rows (λ (e : Exposure). e.release_id) i l [])
    ∙ (any-select test of_release l
        ∙ (any_same (λ e. of_release e && test e) alone l
              (All-mono _ _ l
                (λ e k. ap (λ b. of_release e && b) (opens-alone s context l e e.audience_type k))
                (grant_ids_within l l (λ j k. k)))
            ∙ (any-select alone (is_listed_exposure ids) s.db.exposures
                ∙ (any_same _ _ s.db.exposures (every _ one s.db.exposures) ∙ rw n refl))))
  where
    one :
        (e : Exposure)
        → (is_listed_exposure ids e
            && ((e.release_id == i) && opens_alone s context e.audience_type e))
          ≡ ((e.release_id == i && (is_active e.state && is_enabled e.install_mode))
              && opens_alone s context e.audience_type e)
    one e = elim (Bool-cases (e.release_id == i)) [
      | inl q ↦
          let k : is_in e.release_id ids ≡ true =
            subst (λ j. is_in j ids ≡ true) (sym ((==_iff e.release_id i).0 q)) h in
          ground (arith, q, k)
      | inr q ↦ ground (arith, q)
    ]

-- The two queries for many releases give access to exactly those that each would have alone.
pub can_access_releases-each :
    (s : Store) (context : AccessContext) (ids : List ℕ)
    → can_access_releases s context ids ≡ select (may_access s context) ids
unfolding can_access_releases
can_access_releases-each s context ids = elim (Option-cases context.grant_id) [
  | inr (g, n) ↦
      let alone =
        select_same (λ i. grant_allows_release s g i) (may_access s context) ids
          (every _ (λ i. rw n refl) ids) in
      simp (n, can_access_releases) alone
  | inl n ↦
      let alone = select_same _ (may_access s context) ids (
        All-mono _ _ ids (λ i h. accessible-alone s context ids i n h)
          (ids_within ids ids (λ j k. k))) in
      simp (n, can_access_releases) alone
]

pub can_access_release-may_access :
    (s : Store) (context : AccessContext) (i : ℕ)
    → can_access_release s context i ≡ may_access s context i
unfolding can_access_release is_in
can_access_release-may_access s context i =
    ap (λ l. is_in i l) (can_access_releases-each s context (i ∷ []))
    ∙ elim (Bool-cases (may_access s context i)) [
      | inl e ↦ rw e (ground (arith, ==-refl i))
      | inr e ↦ rw e refl
    ]
