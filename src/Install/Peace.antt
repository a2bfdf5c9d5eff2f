-- ===== src/Install/Peace.antt =====
-- No two selected candidates exclude each other.
use infinitas_skill.Prelude.{
  ℕ, zero, suc, String, Bool, true, false, some, List, [], ◌∷◌, ◌++◌, ◌≡◌, ◌≢◌, sym, subst, ◌∙◌,
  str_eq, eq_iff, All, Bool-cases, Option-cases, ◌⊎◌, inl, inr, All-mono,
}
use infinitas_skill.Prelude.Sort.{sort_by}
use infinitas_skill.Install.Model.{
  Requirement, Candidate, Installed, Catalog, Dict, Outcome, done, candidate_key, assign, lookup,
}
use infinitas_skill.Install.Matching.{
  clash, selected_conflict, any_raising, entry_matches_skill, candidate_skill, pool,
}
use infinitas_skill.Install.Solver.{resolve_recursive, solve, requirements, compare_pending, others}
use infinitas_skill.Install.Lookup.{lookup-assign_self, lookup-assign_ne, str_ne, str_differ}
use infinitas_skill.Install.Steps.{chosen, Succeeds, nothing, kept, picked, resolve_group-Succeeds}

-- Selected candidates have different names, and neither is in conflict with the other.
abbrev pub IsPeaceful : Dict Candidate → Type 0
IsPeaceful selected =
    (k j : String) (c d : Candidate)
    → lookup k selected ≡ some c
    → lookup j selected ≡ some d
    → k ≢ j
    → clash c d ≡ some false

str_eq-sym : (s t : String) (b : Bool) → str_eq s t ≡ b → str_eq t s ≡ b
str_eq-sym s t true h = (eq_iff t s).1 (sym ((eq_iff s t).0 h))
str_eq-sym s t false h = str_differ t s (λ e. str_ne s t h (sym e))

clash-sym : (c d : Candidate) → clash c d ≡ some false → clash d c ≡ some false
unfolding clash
clash-sym c d h = elim (Bool-cases (str_eq d.name c.name)) [
  | inl a ↦ absurd (cc (rw (a, clash) at h))
  | inr a ↦
      elim (Option-cases
        (any_raising (λ e. entry_matches_skill e (candidate_skill d)) c.conflicts_with)) [
          | inl n ↦ absurd (cc (rw (a, clash, n) at h))
          | inr (true, n) ↦ absurd (cc (rw (a, clash, n) at h))
          | inr (false, n) ↦
              let m : any_raising (λ e. entry_matches_skill e (candidate_skill c)) d.conflicts_with
                  ≡ some false =
                rw (a, clash, n) at h in
              rw (str_eq-sym d.name c.name false a) (rw m n)
        ]
]

selected_conflict-clash :
    (c : Candidate) (selected : Dict Candidate) (k : String) (d : Candidate)
    → selected_conflict c selected ≡ some false
    → lookup k selected ≡ some d
    → k ≢ candidate_key c
    → clash c d ≡ some false
unfolding selected_conflict lookup
selected_conflict-clash c [] k d h e n = absurd (cc e)
selected_conflict-clash c ((i, o) ∷ selected) k d h e n =
    elim (Bool-cases (str_eq i (candidate_key c))) [
      | inl a ↦
          let f = str_differ i k (λ q. n (sym q ∙ (eq_iff i (candidate_key c)).0 a)) in
          selected_conflict-clash c selected k d (rw (a, selected_conflict) at h)
            (rw (f, lookup) at e) n
      | inr a ↦ elim (Option-cases (clash c o)) [
        | inl m ↦ absurd (cc (rw (a, selected_conflict, m) at h))
        | inr (true, m) ↦ absurd (cc (rw (a, selected_conflict, m) at h))
        | inr (false, m) ↦ elim (Bool-cases (str_eq i k)) [
          | inl b ↦
              let e' : some o ≡ some d = rw (b, lookup) at e in
              let same : o ≡ d = cc e' in subst (λ x. clash c x ≡ some false) same m
          | inr b ↦
              selected_conflict-clash c selected k d (rw (a, selected_conflict, m) at h)
                (rw (b, lookup) at e) n
        ]
      ]
    ]

-- What a dict with a new value has under a key: the new value, or what it had
assign-cases :
    (k j : String) (c a : Candidate) (selected : Dict Candidate)
    → lookup j (assign k c selected) ≡ some a
    → ((j ≡ k) × (c ≡ a)) ⊎ ((j ≢ k) × (lookup j selected ≡ some a))
assign-cases k j c a selected e = elim (Bool-cases (str_eq j k)) [
  | inl b ↦
      let q : j ≡ k = (eq_iff j k).0 b in
      let e' : some c ≡ some a =
        sym (lookup-assign_self k c selected)
        ∙ subst (λ i. lookup i (assign k c selected) ≡ some a) q e in
      inl (q, cc e')
  | inr b ↦ let n = str_ne j k b in inr (n, sym (lookup-assign_ne k j c selected n) ∙ e)
]

assign-IsPeaceful :
    (c : Candidate) (selected : Dict Candidate)
    → IsPeaceful selected
    → selected_conflict c selected ≡ some false
    → IsPeaceful (assign (candidate_key c) c selected)
assign-IsPeaceful c selected p h k j a b e f n =
    let key = candidate_key c in
    elim (assign-cases key k c a selected e) [
      | inl (k_new, c_a) ↦ elim (assign-cases key j c b selected f) [
        | inl (j_new, c_b) ↦ absurd (n (k_new ∙ sym j_new))
        | inr (j_old, g) ↦
            subst (λ x. clash x b ≡ some false) c_a
              (selected_conflict-clash c selected j b h g j_old)
      ]
      | inr (k_old, g) ↦ elim (assign-cases key j c b selected f) [
        | inl (j_new, c_b) ↦
            subst (λ x. clash a x ≡ some false) c_b
              (clash-sym c a (selected_conflict-clash c selected k a h g k_old))
        | inr (j_old, g') ↦ p k j a b g g' n
      ]
    ]

only :
    (root : Candidate) (k : String) (c : Candidate)
    → lookup k ((candidate_key root, root) ∷ []) ≡ some c
    → candidate_key root ≡ k
unfolding lookup
only root k c p = elim (Bool-cases (str_eq (candidate_key root) k)) [
  | inl b ↦ (eq_iff (candidate_key root) k).0 b
  | inr b ↦ absurd (cc (rw (b, lookup) at p))
]

abbrev KeepsPeace : (Dict Candidate → List Requirement → Outcome (Dict Candidate)) → Type 0
KeepsPeace go =
    (selected : Dict Candidate) (pending : List Requirement) (found : Dict Candidate)
    → IsPeaceful selected
    → go selected pending ≡ done found
    → IsPeaceful found

module _ (installed : Dict Installed) (catalog : Catalog) where
  resolve_group-IsPeaceful :
      (go : Dict Candidate → List Requirement → Outcome (Dict Candidate))
      → KeepsPeace go
      → (selected : Dict Candidate) (pending : List Requirement) (found : Dict Candidate)
      → IsPeaceful selected
      → Succeeds (λ e c. Unit {0}) go selected pending found
      → IsPeaceful found
  resolve_group-IsPeaceful go ih selected _ _ p nothing = p
  resolve_group-IsPeaceful go ih selected _ found p (kept first l c n m e) =
      ih selected (others first l) found p e
  resolve_group-IsPeaceful go ih selected _ found p (picked first l n (chosen c _ h _ g)) =
      ih (assign (candidate_key c) c selected) (others first l ++ requirements c) found
        (assign-IsPeaceful c selected p h) g

  trivial : {A : Type 0} (l : List A) → All (λ a. Unit {0}) l
  trivial [] = tt
  trivial (x ∷ l) = (tt, trivial l)

  resolve_recursive-IsPeaceful : (fuel : ℕ) → KeepsPeace (resolve_recursive installed catalog fuel)
  unfolding resolve_recursive
  resolve_recursive-IsPeaceful zero selected pending found p e = absurd (cc e)
  resolve_recursive-IsPeaceful (suc fuel) selected pending found p e =
      resolve_group-IsPeaceful (resolve_recursive installed catalog fuel)
        (resolve_recursive-IsPeaceful fuel) selected (sort_by compare_pending pending) found p
        (resolve_group-Succeeds installed catalog _ _ selected _ found
          (All-mono (λ q. Unit {0}) _ (sort_by compare_pending pending)
            (λ q _. trivial (pool catalog q.entry)) (trivial _))
          e)

  -- In the selection that the search returns, two candidates under different keys have different names
  -- and neither is in conflict with the other.
  pub solve-IsPeaceful :
      (fuel : ℕ) (root : Candidate) (found : Dict Candidate)
      → solve installed catalog fuel root ≡ done found
      → IsPeaceful found
  unfolding solve lookup
  solve-IsPeaceful fuel root found e = elim (Bool-cases (str_eq (candidate_key root) "")) [
    | inl a ↦ absurd (cc (rw (a, solve) at e))
    | inr a ↦
        resolve_recursive-IsPeaceful fuel ((candidate_key root, root) ∷ []) (requirements root)
          found (λ k j c d p q n. absurd (n (sym (only root k c p) ∙ only root j d q)))
          (rw (a, solve) at e)
  ]
