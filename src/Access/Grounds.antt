-- ===== src/Access/Grounds.antt =====
-- On what grounds a release may be accessed.
use infinitas_skill.Prelude.{
  ℕ, Bool, true, false, none, List, [], ◌∷◌, ◌&&◌, ◌==◌, ◌≡◌, refl, sym, subst, ◌∙◌, any, All, ◌⊎◌,
  ◌||◌, some, str_eq, is_some, Bool-cases, inl, inr, arith,
}
use infinitas_skill.Visibility.Model.{
  Db, Exposure, Audience, private, authenticated, grant, public, ExposureState, active, is_active,
}
use infinitas_skill.Visibility.Safety.{IsSafe, approved_of, is_agent_published}
use infinitas_skill.Visibility.History.{Request, serve_all, active_public-approved}
use infinitas_skill.Shares.Model.{Store, AccessGrant}
use infinitas_skill.Shares.Links.{is_enabled}
use infinitas_skill.Access.Authz.{AccessContext, is_id, can_access_release}
use infinitas_skill.Access.Each.{opens_alone, may_access, can_access_release-may_access}

is_active-active : (t : ExposureState) → is_active t ≡ true → t ≡ active
is_active-active active h = refl
is_active-active ExposureState.draft h = absurd (cc h)
is_active-active ExposureState.pending_policy h = absurd (cc h)
is_active-active ExposureState.review_open h = absurd (cc h)
is_active-active ExposureState.revoked h = absurd (cc h)
is_active-active ExposureState.rejected h = absurd (cc h)

any-All :
    {A : Type 0} (p q : A → Bool) (P : A → Type 0) (l : List A)
    → All P l
    → ((x : A) → P x → p x ≡ true → q x ≡ true)
    → any p l ≡ true
    → any q l ≡ true
any-All p q P [] h f e = absurd (cc e)
any-All p q P (x ∷ l) h f e = elim (Bool-cases (p x)) [
  | inl a ↦ ground (arith, f x h.0 a)
  | inr a ↦ ground (arith, any-All p q P l h.1 f (rw a at e))
]

may_access-any :
    (s : Store) (context : AccessContext) (i : ℕ)
    → context.grant_id ≡ none
    → may_access s context i
      ≡ any
          (λ (e : Exposure).
            (e.release_id == i && (is_active e.state && is_enabled e.install_mode))
            && opens_alone s context e.audience_type e)
          s.db.exposures
may_access-any s context i n = simp (may_access, n) refl

-- What an exposure to an audience wants of a visitor: to the public nothing, but its review case was
-- approved or it was published for an agent whose policy allows that; else an account, an agent's
-- principal, having asked for the exposure, or an active grant
abbrev pub has_ground : Store → AccessContext → Audience → Exposure → Bool
has_ground s context public e =
    any (approved_of e.id) s.db.cases || is_agent_published e.policy_snapshot
has_ground s context authenticated e =
    context.has_user
    || (str_eq context.credential_type "agent_token" && is_some context.principal_id)
has_ground s context private e = elim context.principal_id [
  | none ↦ false
  | some p ↦ is_id e.requested_by_principal_id p
]
has_ground s context grant e = elim context.principal_id [
  | none ↦ false
  | some p ↦
      any
        (λ (g : AccessGrant).
          (g.exposure_id == e.id && str_eq g.state "active") && is_id g.subject_principal_id p)
        s.grants
]

opens_alone-has_ground :
    (s : Store) (context : AccessContext) (a : Audience) (e : Exposure)
    → (a ≡ public
        → (any (approved_of e.id) s.db.cases ≡ true)
          ⊎ (is_agent_published e.policy_snapshot ≡ true))
    → opens_alone s context a e ≡ true
    → has_ground s context a e ≡ true
opens_alone-has_ground s context public e f h = elim (f refl) [
  | inl a ↦ ground (arith, a)
  | inr p ↦ ground (arith, p)
]
opens_alone-has_ground s context authenticated e f h = h
opens_alone-has_ground s context private e f h = h
opens_alone-has_ground s context grant e f h = h

-- After any requests to the services for releases, exposures and reviews, and any materialisations,
-- from a safe database: a credential that is not bound to a grant may access a release only through
-- an exposure of it that is active and can be installed, and if that is public, its review case was
-- approved or it was published for an agent whose policy allows that; if it is to authenticated
-- visitors, there is a user or an agent; if it is private, the principal asked for it; and if it is
-- to grants, an active grant of it names the principal.
pub can_access_release-has_ground :
    (db : Db) (rs : List Request) (s : Store) (context : AccessContext) (release_id : ℕ)
    → IsSafe db
    → s.db ≡ serve_all db rs
    → context.grant_id ≡ none
    → can_access_release s context release_id ≡ true
    → any
        (λ (e : Exposure).
          (e.release_id == release_id && (is_active e.state && is_enabled e.install_mode))
          && has_ground s context e.audience_type e)
        s.db.exposures
      ≡ true
can_access_release-has_ground db rs s context release_id safe same n h =
    let reviewed =
      subst
        (λ (d : Db).
          All
            (λ (e : Exposure).
              e.audience_type ≡ public
              → e.state ≡ active
              → (any (approved_of e.id) d.cases ≡ true)
                ⊎ (is_agent_published e.policy_snapshot ≡ true))
            d.exposures)
        (sym same) (active_public-approved db rs safe) in
    let may : may_access s context release_id ≡ true =
      sym (can_access_release-may_access s context release_id) ∙ h in
    any-All _ _ _ s.db.exposures reviewed
      (λ e approved shown.
        let opened : opens_alone s context e.audience_type e ≡ true = ground arith in
        let is_now : is_active e.state ≡ true = ground arith in
        let found =
          opens_alone-has_ground s context e.audience_type e
            (λ a. approved a (is_active-active e.state is_now)) opened in
        ground (arith, found))
      (sym (may_access-any s context release_id n) ∙ may)
