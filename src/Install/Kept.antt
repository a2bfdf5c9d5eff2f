-- ===== src/Install/Kept.antt =====
-- What the search selects is of the catalog, and no more than its fuel.
use infinitas_skill.Prelude.{
  ℕ, zero, suc, ◌+◌, ◌≤◌, String, List, [], ◌∷◌, ◌++◌, ◌≡◌, refl, str_eq, eq_iff, length, All,
  Bool-cases, inl, inr, arith,
}
use infinitas_skill.Prelude.Sort.{sort_by}
use infinitas_skill.Install.Model.{
  Requirement, Candidate, Installed, Catalog, Dict, Outcome, done, candidate_key, assign,
}
use infinitas_skill.Install.Matching.{pool}
use infinitas_skill.Install.Solver.{resolve_recursive, solve, requirements, compare_pending, others}
use infinitas_skill.Install.Steps.{chosen, Succeeds, nothing, kept, picked, resolve_group-Succeeds}
use infinitas_skill.Install.Sound.{pool-All}

-- Every item of a selection has a property of its key and its candidate, and there are at most so many.
abbrev pub Holds : (Candidate → Type 0) → ℕ → Dict Candidate → Type 0
Holds P n selected = All (λ p. (p.0 ≡ candidate_key p.1) × P p.1) selected × (length selected ≤ n)

assign-All :
    (P : Candidate → Type 0) (c : Candidate) (d : Dict Candidate)
    → P c
    → All (λ p. (p.0 ≡ candidate_key p.1) × P p.1) d
    → All (λ p. (p.0 ≡ candidate_key p.1) × P p.1) (assign (candidate_key c) c d)
unfolding assign
assign-All P c [] h k = ((refl, h), tt)
assign-All P c ((i, b) ∷ d) h k = elim (Bool-cases (str_eq i (candidate_key c))) [
  | inl e ↦ rw e (((eq_iff i (candidate_key c)).0 e, h), k.1)
  | inr e ↦ rw e (k.0, assign-All P c d h k.1)
]

length-assign :
    (k : String) (c : Candidate) (d : Dict Candidate) → length (assign k c d) ≤ suc (length d)
unfolding assign
length-assign k c [] = omega arith
length-assign k c ((i, b) ∷ d) = ground (arith, length-assign k c d)

module _ (installed : Dict Installed) (catalog : Catalog) (P : Candidate → Type 0)
    (identities : All (λ p. All P p.1) catalog.by_identity)
    (names : All (λ p. All P p.1) catalog.by_name) where
  abbrev KeepsAll : ℕ → (Dict Candidate → List Requirement → Outcome (Dict Candidate)) → Type 0
  KeepsAll fuel go =
      (n : ℕ) (selected : Dict Candidate) (pending : List Requirement) (found : Dict Candidate)
      → Holds P n selected
      → go selected pending ≡ done found
      → Holds P (fuel + n) found

  resolve_group-Holds :
      (fuel : ℕ) (go : Dict Candidate → List Requirement → Outcome (Dict Candidate))
      → KeepsAll fuel go
      → (n : ℕ) (selected : Dict Candidate) (pending : List Requirement) (found : Dict Candidate)
      → Holds P n selected
      → Succeeds (λ e c. P c) go selected pending found
      → Holds P (suc fuel + n) found
  resolve_group-Holds fuel go ih n selected _ _ p nothing = (p.0, omega (arith, p.1))
  resolve_group-Holds fuel go ih n selected _ found p (kept first l c _ m e) =
      let q = ih n selected (others first l) found p e in (q.0, omega (arith, q.1))
  resolve_group-Holds fuel go ih n selected _ found p (picked first l _ (chosen c s h _ g)) =
      let q =
        ih (suc n) (assign (candidate_key c) c selected) (others first l ++ requirements c) found
          (
            assign-All P c selected s.0 p.0,
            omega (arith, p.1, length-assign (candidate_key c) c selected),
          )
          g in
      (q.0, omega (arith, q.1))

  pending_pools : (l : List Requirement) → All (λ q. All P (pool catalog q.entry)) l
  pending_pools [] = tt
  pending_pools (q ∷ l) = (pool-All P catalog q.entry identities names, pending_pools l)

  resolve_recursive-Holds : (fuel : ℕ) → KeepsAll fuel (resolve_recursive installed catalog fuel)
  unfolding resolve_recursive
  resolve_recursive-Holds zero n selected pending found p e = absurd (cc e)
  resolve_recursive-Holds (suc fuel) n selected pending found p e =
      resolve_group-Holds fuel (resolve_recursive installed catalog fuel)
        (resolve_recursive-Holds fuel) n selected (sort_by compare_pending pending) found p
        (resolve_group-Succeeds installed catalog _ _ selected _ found
          (pending_pools (sort_by compare_pending pending)) e)

  -- What holds of the root and of all candidates of the catalog, holds of all that the search selects;
  -- it selects each under its own key, and at most one more than its fuel.
  pub solve-Holds :
      (fuel : ℕ) (root : Candidate) (found : Dict Candidate)
      → P root
      → solve installed catalog fuel root ≡ done found
      → Holds P (fuel + 1) found
  unfolding solve
  solve-Holds fuel root found h e = elim (Bool-cases (str_eq (candidate_key root) "")) [
    | inl a ↦ absurd (cc (rw (a, solve) at e))
    | inr a ↦
        resolve_recursive-Holds fuel 1 ((candidate_key root, root) ∷ []) (requirements root) found
          (((refl, h), tt), omega arith) (rw (a, solve) at e)
  ]
