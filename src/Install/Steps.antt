-- ===== src/Install/Steps.antt =====
-- What the steps of the search say when they succeed.
use infinitas_skill.Prelude.{
  true, false, Option, none, some, List, [], ◌∷◌, ◌++◌, ◌≡◌, ◌≢◌, refl, ap, subst, ◌∙◌, str_eq,
  eq_iff, All, Bool-cases, Option-cases, ◌⊎◌, inl, inr,
}
use infinitas_skill.Prelude.Text.{codes}
use infinitas_skill.Versions.Constraint.{constraint_is_exact}
use infinitas_skill.Prelude.Sort.{All-sort_raising}
use infinitas_skill.Install.Model.{
  Entry, Requirement, Candidate, Installed, Catalog, Dict, Outcome, done, dependency_error,
  value_error, out_of_fuel, Problem, entry_key, candidate_key, assign, lookup,
}
use infinitas_skill.Install.Matching.{
  satisfies, candidate_satisfies_all, matching_candidates, select_satisfying, pool,
  selected_conflict, or_text, all_raising, constraints_compatible,
}
use infinitas_skill.Install.Solver.{
  resolve_candidates, resolve_group, requirements, same_name, others,
}

pub Outcome-cases {ℓ} :
    {A : Type ℓ} (o : Outcome A)
    → ((a : A) × (o ≡ done a))
      ⊎ (((p : Problem) × (o ≡ dependency_error p)) ⊎ ((o ≡ value_error) ⊎ (o ≡ out_of_fuel)))
Outcome-cases (done a) = inl (a, refl)
Outcome-cases (dependency_error p) = inr (inl (p, refl))
Outcome-cases value_error = inr (inr (inl refl))
Outcome-cases out_of_fuel = inr (inr (inr refl))

-- The candidate that a search has settled on
pub data Chosen (P : Candidate → Type 0)
    (go : Dict Candidate → List Requirement → Outcome (Dict Candidate)) (selected : Dict Candidate)
    (rest : List Requirement) (o : Outcome (Dict Candidate)) : Type 0 where
  chosen :
      (c : Candidate)
      → P c
      → selected_conflict c selected ≡ some false
      → candidate_key c ≢ ""
      → go (assign (candidate_key c) c selected) (rest ++ requirements c) ≡ o
      → Chosen P go selected rest o

pub resolve_candidates-Chosen :
    (P : Candidate → Type 0) (go : Dict Candidate → List Requirement → Outcome (Dict Candidate))
    (candidates : List Candidate) (selected : Dict Candidate) (rest : List Requirement)
    (found : Dict Candidate)
    → All P candidates
    → resolve_candidates go candidates selected rest ≡ done found
    → Chosen P go selected rest (done found)
unfolding resolve_candidates
resolve_candidates-Chosen P go [] selected rest found h e = absurd (cc e)
resolve_candidates-Chosen P go (c ∷ cs) selected rest found h e =
    let next = λ (k : resolve_candidates go cs selected rest ≡ done found).
      resolve_candidates-Chosen P go cs selected rest found h.1 k in
    elim (Option-cases (selected_conflict c selected)) [
      | inl n ↦ absurd (cc (rw (n, resolve_candidates) at e))
      | inr (true, n) ↦ next (rw (n, resolve_candidates) at e)
      | inr (false, n) ↦ elim (Bool-cases (str_eq (candidate_key c) "")) [
        | inl q ↦ next (rw (n, resolve_candidates, q) at e)
        | inr q ↦
            elim (Outcome-cases
              (go (assign (candidate_key c) c selected) (rest ++ requirements c))) [
                | inl (a, g) ↦
                    chosen c h.0 n (λ k. cc ((eq_iff (candidate_key c) "").1 k, q))
                      (g ∙ (rw (n, resolve_candidates, q, g) at e))
                | inr (inl (p, g)) ↦ next (rw (n, resolve_candidates, q, g) at e)
                | inr (inr (inl g)) ↦ absurd (cc (rw (n, resolve_candidates, q, g) at e))
                | inr (inr (inr g)) ↦ absurd (cc (rw (n, resolve_candidates, q, g) at e))
              ]
      ]
    ]

-- A candidate that satisfies all requirements satisfies each, and is installable.
pub candidate_satisfies_all-All :
    (c : Candidate) (constraints : List Requirement)
    → candidate_satisfies_all c constraints ≡ some true
    → All (λ q. satisfies c q ≡ some true) constraints × (c.installable ≡ true)
unfolding candidate_satisfies_all
candidate_satisfies_all-All c [] h = (tt, cc h)
candidate_satisfies_all-All c (q ∷ qs) h = elim (Option-cases (satisfies c q)) [
  | inl n ↦ absurd (cc (rw (n, candidate_satisfies_all) at h))
  | inr (false, n) ↦ absurd (cc (rw (n, candidate_satisfies_all) at h))
  | inr (true, n) ↦
      let (r, i) = candidate_satisfies_all-All c qs (rw (n, candidate_satisfies_all) at h) in
      ((n, r), i)
]

select_satisfying-All :
    (P : Candidate → Type 0) (constraints : List Requirement) (l r : List Candidate)
    → All P l
    → select_satisfying constraints l ≡ some r
    → All (λ c. P c × (candidate_satisfies_all c constraints ≡ some true)) r
unfolding select_satisfying
select_satisfying-All P constraints [] r h e =
    let e' : [] ≡ r = cc e in
    subst (λ l. All (λ c. P c × (candidate_satisfies_all c constraints ≡ some true)) l) e' tt
select_satisfying-All P constraints (c ∷ l) r h e =
    let Q = λ (d : Candidate). P d × (candidate_satisfies_all d constraints ≡ some true) in
    elim (Option-cases (candidate_satisfies_all c constraints)) [
      | inl n ↦ absurd (cc (rw (n, select_satisfying) at e))
      | inr (b, n) ↦ elim (Option-cases (select_satisfying constraints l)) [
        | inl m ↦ absurd (cc (rw (n, select_satisfying, m) at e))
        | inr (t, m) ↦
            let rest = select_satisfying-All P constraints l t h.1 m in
            elim (Bool-cases b) [
              | inl k ↦
                  let e' : some (c ∷ t) ≡ some r = rw (n, select_satisfying, m, k) at e in
                  let e'' : c ∷ t ≡ r = cc e' in subst (All Q) e'' ((h.0, n ∙ ap some k), rest)
              | inr k ↦
                  let e' : some t ≡ some r = rw (n, select_satisfying, m, k) at e in
                  let e'' : t ≡ r = cc e' in subst (All Q) e'' rest
            ]
      ]
    ]

-- The candidates that match are of the pool, and satisfy all requirements.
pub matching_candidates-All :
    (P : Candidate → Type 0) (first : Requirement) (constraints : List Requirement)
    (installed : Option Installed) (catalog : Catalog) (r : List Candidate)
    → All P (pool catalog first.entry)
    → matching_candidates first constraints installed catalog ≡ some r
    → All (λ c. P c × (candidate_satisfies_all c constraints ≡ some true)) r
unfolding matching_candidates
matching_candidates-All P first constraints installed catalog r h e =
    elim (Option-cases (select_satisfying constraints (pool catalog first.entry))) [
      | inl n ↦ absurd (cc (rw (n, matching_candidates) at e))
      | inr (l, n) ↦
          elim (Option-cases (
            all_raising
              (λ (q : Requirement).
                constraint_is_exact (some (or_text q.entry.version (codes "*"))))
              constraints)) [
                | inl m ↦ absurd (cc (rw (n, matching_candidates, m) at e))
                | inr (b, m) ↦
                    All-sort_raising _ _ l r (rw (n, matching_candidates, m) at e)
                      (select_satisfying-All P constraints (pool catalog first.entry) l h n)
              ]
    ]

-- How a step of the search succeeds: nothing is required, or the selected candidate satisfies the
-- group of the first requirement, or a candidate of its pool is chosen.
pub data Succeeds (P : Entry → Candidate → Type 0)
    (go : Dict Candidate → List Requirement → Outcome (Dict Candidate)) (selected : Dict Candidate)
    : List Requirement → Dict Candidate → Type 0 where
  nothing : Succeeds P go selected [] selected
  kept :
      {found : Dict Candidate} (first : Requirement) (l : List Requirement) (c : Candidate)
      → lookup (entry_key first.entry) selected ≡ some c
      → candidate_satisfies_all c (same_name first l) ≡ some true
      → go selected (others first l) ≡ done found
      → Succeeds P go selected (first ∷ l) found
  picked :
      {found : Dict Candidate} (first : Requirement) (l : List Requirement)
      → lookup (entry_key first.entry) selected ≡ none
      → Chosen
          (λ c. P first.entry c × (candidate_satisfies_all c (same_name first l) ≡ some true))
          go
          selected
          (others first l)
          (done found)
      → Succeeds P go selected (first ∷ l) found

module _ (installed : Dict Installed) (catalog : Catalog) where
  pub resolve_group-Succeeds :
      (P : Entry → Candidate → Type 0)
      (go : Dict Candidate → List Requirement → Outcome (Dict Candidate))
      (selected : Dict Candidate) (pending : List Requirement) (found : Dict Candidate)
      → All (λ q. All (P q.entry) (pool catalog q.entry)) pending
      → resolve_group installed catalog go selected pending ≡ done found
      → Succeeds P go selected pending found
  unfolding resolve_group
  resolve_group-Succeeds P go selected [] found h e =
      let same : selected ≡ found = cc e in subst (Succeeds P go selected []) same nothing
  resolve_group-Succeeds P go selected (first ∷ l) found h e =
      elim (Bool-cases (str_eq (entry_key first.entry) "")) [
        | inl a ↦ absurd (cc (rw (a, resolve_group) at e))
        | inr a ↦ elim (Bool-cases (constraints_compatible (same_name first l))) [
          | inr b ↦ absurd (cc (rw (a, resolve_group, b) at e))
          | inl b ↦ elim (Option-cases (lookup (entry_key first.entry) selected)) [
            | inr (c, n) ↦ elim (Option-cases (candidate_satisfies_all c (same_name first l))) [
              | inl m ↦ absurd (cc (rw (a, resolve_group, b, n, m) at e))
              | inr (false, m) ↦ absurd (cc (rw (a, resolve_group, b, n, m) at e))
              | inr (true, m) ↦ kept first l c n m (rw (a, resolve_group, b, n, m) at e)
            ]
            | inl n ↦
                elim (Option-cases (
                  matching_candidates first (same_name first l)
                    (lookup (entry_key first.entry) installed) catalog)) [
                      | inl m ↦ absurd (cc (rw (a, resolve_group, b, n, m) at e))
                      | inr ([], m) ↦ absurd (cc (rw (a, resolve_group, b, n, m) at e))
                      | inr (c ∷ cs, m) ↦ picked first l n (
                          resolve_candidates-Chosen _ go (c ∷ cs) selected (others first l) found
                            (matching_candidates-All (P first.entry) first (same_name first l) _
                              catalog (c ∷ cs) h.0 m)
                            (rw (a, resolve_group, b, n, m) at e))
                    ]
          ]
        ]
      ]
