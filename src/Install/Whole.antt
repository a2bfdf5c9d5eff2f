-- ===== src/Install/Whole.antt =====
-- The planner from the root to the steps.
use infinitas_skill.Prelude.{
  ℕ, suc, ◌<◌, String, false, some, List, [], ◌∷◌, ◌≡◌, refl, sym, subst, ◌∙◌, str_eq, eq_iff, All,
  All-mono, Bool-cases, inl, inr, arith,
}
use infinitas_skill.Install.Model.{
  Entry, Candidate, Installed, Catalog, Dict, done, entry_key, candidate_key, lookup,
}
use infinitas_skill.Install.Solver.{solve, validate_final_state, requirements}
use infinitas_skill.Install.Steps.{Outcome-cases}
use infinitas_skill.Install.Sound.{Met, AreKeyed, IsNamed, solve-Met}
use infinitas_skill.Install.Plan.{Built, built, Step, plan, build_plan}
use infinitas_skill.Install.Applied.{IsRank}
use infinitas_skill.Install.Planned.{HasNames, IsPlan, build_plan-IsPlan}
use infinitas_skill.Install.Kept.{solve-Holds}

-- The dependencies of a candidate have names, and lead to smaller ranks.
abbrev pub Layered : (String → ℕ) → Candidate → Type 0
Layered rank c =
    HasNames c × All (λ (e : Entry). rank (entry_key e) < rank (candidate_key c)) c.depends_on

pub record IsLayered (rank : String → ℕ) (catalog : Catalog) : Type 0 where
  pub identities : All (λ p. All (Layered rank) p.1) catalog.by_identity
  pub names : All (λ p. All (Layered rank) p.1) catalog.by_name

lookup-own :
    (P : Candidate → Type 0) (d : Dict Candidate) (k : String) (c : Candidate)
    → All (λ p. (p.0 ≡ candidate_key p.1) × P p.1) d
    → lookup k d ≡ some c
    → (k ≡ candidate_key c) × P c
unfolding lookup
lookup-own P [] k c h e = absurd (cc e)
lookup-own P ((i, b) ∷ d) k c h e = elim (Bool-cases (str_eq i k)) [
  | inl f ↦
      let e' : some b ≡ some c = rw (f, lookup) at e in
      let same : b ≡ c = cc e' in
      subst (λ x. (k ≡ candidate_key x) × P x) same (sym ((eq_iff i k).0 f) ∙ h.0.0, h.0.1)
  | inr f ↦ lookup-own P d k c h.1 (rw (f, lookup) at e)
]

Layered-IsRank :
    (rank : String → ℕ) (found : Dict Candidate)
    → All (λ p. (p.0 ≡ candidate_key p.1) × Layered rank p.1) found
    → IsRank found rank
Layered-IsRank rank found h k c e =
    let (own, l) = lookup-own (Layered rank) found k c h e in
    All-mono _ _ c.depends_on (λ d r _. subst (λ j. rank (entry_key d) < rank j) (sym own) r) l.1

-- What a plan for a selection promises: the selection has the root, a candidate is selected for every
-- dependency of a selected candidate and satisfies it, and the steps follow their dependencies.
pub record IsInstallable (root : Candidate) (installed : Dict Installed) (mode : String)
    (steps : List Step) : Type 0 where
  pub selected : Dict Candidate
  pub has_root : lookup (candidate_key root) selected ≡ some root
  pub met :
      (k : String) (c : Candidate)
      → lookup k selected ≡ some c
      → All (Met selected) (requirements c)
  pub planned : IsPlan root selected installed mode steps
  pub valid : validate_final_state root selected installed mode ≡ done tt

-- When neither the search nor the check of the final state raises, the steps are those of the selection.
pub plan-build_plan :
    (installed : Dict Installed) (catalog : Catalog) (fuel : ℕ) (root : Candidate) (mode : String)
    (found : Dict Candidate)
    → solve installed catalog fuel root ≡ done found
    → validate_final_state root found installed mode ≡ done tt
    → plan fuel root installed catalog mode
      ≡ done (build_plan root found installed mode (suc (suc fuel)))
unfolding plan
plan-build_plan installed catalog fuel root mode found e v = rw (plan, e, v) refl

module _ (installed : Dict Installed) (catalog : Catalog) (named : IsNamed catalog)
    (rank : String → ℕ) (layered : IsLayered rank catalog) where
  found-IsInstallable :
      (fuel : ℕ) (root : Candidate) (mode : String) (found : Dict Candidate)
      → AreKeyed catalog root
      → Layered rank root
      → str_eq (candidate_key root) "" ≡ false
      → solve installed catalog fuel root ≡ done found
      → validate_final_state root found installed mode ≡ done tt
      → (steps : List Step) × ((build_plan root found installed mode (suc (suc fuel)) ≡ built steps)
          × IsInstallable root installed mode steps)
  found-IsInstallable fuel root mode found keyed l a e v =
      let (has_root, met) = solve-Met installed catalog named fuel root found keyed e in
      let (own, bound) =
        solve-Holds installed catalog (Layered rank) layered.identities layered.names fuel root
          found l e in
      let (steps, (q, p)) =
        build_plan-IsPlan root found installed mode (suc (suc fuel)) rank a (rw has_root refl)
          (All-mono (λ (p : String × Candidate). (p.0 ≡ candidate_key p.1) × Layered rank p.1) _
            found (λ _ h. h.1.0) own)
          (Layered-IsRank rank found own) (omega (arith, bound)) in
      (
        steps,
        (q, record { selected = found; has_root = has_root; met = met; planned = p; valid = v }),
      )

  -- Where the catalog's dependencies are named as it names its candidates, none has an empty name and
  -- they have no cycle, and so for the root: when neither the search nor the check of the final state
  -- raises, the plan is built. Its selection has the root and meets every dependency, and every
  -- identity stands in it once, after all its dependencies that are selected, the root last.
  pub plan-IsInstallable :
      (fuel : ℕ) (root : Candidate) (mode : String) (result : Built (List Step))
      → AreKeyed catalog root
      → Layered rank root
      → plan fuel root installed catalog mode ≡ done result
      → (steps : List Step) × ((result ≡ built steps) × IsInstallable root installed mode steps)
  unfolding plan solve
  plan-IsInstallable fuel root mode result keyed l e =
      elim (Bool-cases (str_eq (candidate_key root) "")) [
        | inl a ↦ absurd (cc (rw (a, solve, plan) at e))
        | inr a ↦ elim (Outcome-cases (solve installed catalog fuel root)) [
          | inr (inl (p, n)) ↦ absurd (cc (rw (n, plan) at e))
          | inr (inr (inl n)) ↦ absurd (cc (rw (n, plan) at e))
          | inr (inr (inr n)) ↦ absurd (cc (rw (n, plan) at e))
          | inl (found, n) ↦ elim (Outcome-cases (validate_final_state root found installed mode)) [
            | inr (inl (p, m)) ↦ absurd (cc (rw (n, plan, m) at e))
            | inr (inr (inl m)) ↦ absurd (cc (rw (n, plan, m) at e))
            | inr (inr (inr m)) ↦ absurd (cc (rw (n, plan, m) at e))
            | inl (u, m) ↦
                let (steps, (q, p)) = found-IsInstallable fuel root mode found keyed l a n m in
                let e' : done (build_plan root found installed mode (suc (suc fuel)))
                    ≡ done result =
                  rw (n, plan, m) at e in
                let e'' : build_plan root found installed mode (suc (suc fuel)) ≡ result = cc e' in
                (steps, (sym e'' ∙ q, p))
          ]
        ]
      ]
