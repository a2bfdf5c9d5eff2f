-- ===== src/Install/Ends.antt =====
-- The search ends: each step drops a requirement, or takes the dependencies of a candidate that no
-- later step takes again.
use infinitas_skill.Prelude.{
  ℕ, zero, suc, ◌+◌, ◌≤◌, ◌<◌, Bool, true, false, none, List, [], ◌∷◌, ◌++◌, ◌≡◌, ◌≢◌, refl, sym,
  subst, ap, str_eq, not, select, All, Bool-cases, Option-cases, inl, inr, arith, All-mono,
  All-append, map, length, length-append,
}
use infinitas_skill.Prelude.Sort.{sort_by, All-sort_by, length-sort_by}
use infinitas_skill.Install.Model.{
  Requirement, Candidate, Installed, Catalog, Dict, Outcome, out_of_fuel, entry_key, candidate_key,
  assign, lookup,
}
use infinitas_skill.Install.Matching.{
  candidate_satisfies_all, matching_candidates, pool, selected_conflict, constraints_compatible,
}
use infinitas_skill.Install.Solver.{
  resolve_candidates, resolve_group, resolve_recursive, solve, requirements, prepare, same_name,
  others, compare_pending,
}
use infinitas_skill.Install.Lookup.{All-select, All-map, All-zip}
use infinitas_skill.Install.Steps.{Outcome-cases, matching_candidates-All}
use infinitas_skill.Install.Measure.{open_deps, open_of_mono, pool-Falls}
use infinitas_skill.Install.Sound.{AreKeyed, IsNamed, Keyed, pool-All}

length-map_all : {A B : Type 0} (g : A → B) (l : List A) → length (map g l) ≡ length l
length-map_all g [] = refl
length-map_all g (x ∷ l) = ap suc (length-map_all g l)

resolve_candidates-ends :
    (go : Dict Candidate → List Requirement → Outcome (Dict Candidate)) (cs : List Candidate)
    (selected : Dict Candidate) (rest : List Requirement)
    → All (λ c. go (assign (candidate_key c) c selected) (rest ++ requirements c) ≢ out_of_fuel) cs
    → resolve_candidates go cs selected rest ≢ out_of_fuel
unfolding resolve_candidates
resolve_candidates-ends go [] selected rest h e = absurd (cc e)
resolve_candidates-ends go (c ∷ cs) selected rest h e =
    let next = resolve_candidates-ends go cs selected rest h.1 in
    elim (Option-cases (selected_conflict c selected)) [
      | inl n ↦ cc (rw (n, resolve_candidates) at e)
      | inr (true, n) ↦ next (rw (n, resolve_candidates) at e)
      | inr (false, n) ↦ elim (Bool-cases (str_eq (candidate_key c) "")) [
        | inl q ↦ next (rw (n, resolve_candidates, q) at e)
        | inr q ↦
            elim (Outcome-cases
              (go (assign (candidate_key c) c selected) (rest ++ requirements c))) [
                | inl (a, g) ↦ cc (rw (n, resolve_candidates, q, g) at e)
                | inr (inl (p, g)) ↦ next (rw (n, resolve_candidates, q, g) at e)
                | inr (inr (inl g)) ↦ cc (rw (n, resolve_candidates, q, g) at e)
                | inr (inr (inr g)) ↦ h.0 g
              ]
      ]
    ]

module _ (installed : Dict Installed) (catalog : Catalog) (named : IsNamed catalog) where
  -- The steps that a search may take at most
  abbrev pub steps : Dict Candidate → List Requirement → ℕ
  steps selected pending = length pending + open_deps catalog selected

  abbrev EndsBelow : ℕ → (Dict Candidate → List Requirement → Outcome (Dict Candidate)) → Type 0
  EndsBelow fuel go =
      (selected : Dict Candidate) (pending : List Requirement)
      → All (Keyed catalog) pending
      → steps selected pending < fuel
      → go selected pending ≢ out_of_fuel

  length-select : (f : Requirement → Bool) (l : List Requirement) → length (select f l) ≤ length l
  length-select f [] = omega arith
  length-select f (q ∷ l) = ground (arith, length-select f l)

  length-requirements : (c : Candidate) → length (requirements c) ≡ length c.depends_on
  length-requirements c = length-map_all (prepare c) c.depends_on

  resolve_group-ends :
      (fuel : ℕ) (go : Dict Candidate → List Requirement → Outcome (Dict Candidate))
      → EndsBelow fuel go
      → (selected : Dict Candidate) (pending : List Requirement) → All (Keyed catalog) pending
      → steps selected pending < suc fuel
      → resolve_group installed catalog go selected pending ≢ out_of_fuel
  unfolding resolve_group
  resolve_group-ends fuel go ih selected [] h f e = cc e
  resolve_group-ends fuel go ih selected (first ∷ l) h f e =
      let keyed_rest : All (Keyed catalog) (others first l) = All-select (Keyed catalog) _ l h.1 in
      let shorter =
        length-select (λ q. not (str_eq (entry_key q.entry) (entry_key first.entry))) l in
      elim (Bool-cases (str_eq (entry_key first.entry) "")) [
        | inl a ↦ cc (rw (a, resolve_group) at e)
        | inr a ↦ elim (Bool-cases (constraints_compatible (same_name first l))) [
          | inr b ↦ cc (rw (a, resolve_group, b) at e)
          | inl b ↦ elim (Option-cases (lookup (entry_key first.entry) selected)) [
            | inr (c, n) ↦ elim (Option-cases (candidate_satisfies_all c (same_name first l))) [
              | inl m ↦ cc (rw (a, resolve_group, b, n, m) at e)
              | inr (false, m) ↦ cc (rw (a, resolve_group, b, n, m) at e)
              | inr (true, m) ↦
                  ih selected (others first l) keyed_rest (omega arith)
                    (rw (a, resolve_group, b, n, m) at e)
            ]
            | inl n ↦
                elim (Option-cases (
                  matching_candidates first (same_name first l)
                    (lookup (entry_key first.entry) installed) catalog)) [
                      | inl m ↦ cc (rw (a, resolve_group, b, n, m) at e)
                      | inr ([], m) ↦ cc (rw (a, resolve_group, b, n, m) at e)
                      | inr (c ∷ cs, m) ↦
                          resolve_candidates-ends go (c ∷ cs) selected (others first l)
                            (All-mono _ _ (c ∷ cs)
                              (λ d p.
                                let ((k, (keyed, falls)), s) = p in
                                let fresh : lookup (candidate_key d) selected ≡ none =
                                  subst (λ j. lookup j selected ≡ none) (sym k) n in
                                ih (assign (candidate_key d) d selected)
                                  (others first l ++ requirements d)
                                  (All-append (Keyed catalog) (others first l) (requirements d)
                                    keyed_rest
                                    (All-map (Keyed catalog) (prepare d) d.depends_on keyed))
                                  (omega (
                                    arith,
                                    falls selected fresh,
                                    length-append (others first l) (requirements d),
                                    length-requirements d,
                                  )))
                              (matching_candidates-All _ first (same_name first l) _ catalog
                                (c ∷ cs)
                                (All-zip _ _ (pool catalog first.entry) h.0 (
                                  All-zip _ _ (pool catalog first.entry)
                                    (pool-All (AreKeyed catalog) catalog first.entry
                                      named.identities named.names)
                                    (pool-Falls catalog first.entry)))
                                m))
                            (rw (a, resolve_group, b, n, m) at e)
                    ]
          ]
        ]
      ]

  resolve_recursive-ends : (fuel : ℕ) → EndsBelow fuel (resolve_recursive installed catalog fuel)
  unfolding resolve_recursive
  resolve_recursive-ends zero selected pending h f = absurd (omega arith)
  resolve_recursive-ends (suc fuel) selected pending h f =
      resolve_group-ends fuel (resolve_recursive installed catalog fuel)
        (resolve_recursive-ends fuel) selected (sort_by compare_pending pending)
        (All-sort_by (Keyed catalog) compare_pending pending h)
        (omega (arith, length-sort_by compare_pending pending))

  fewer :
      (root : Candidate)
      → open_deps catalog ((candidate_key root, root) ∷ []) ≤ open_deps catalog []
  unfolding open_deps assign
  fewer root = omega (
    arith,
    open_of_mono (candidate_key root) root [] catalog.by_identity,
    open_of_mono (candidate_key root) root [] catalog.by_name,
  )

  -- Where all dependencies are named as the catalog names them, the search ends: a recursion as deep as
  -- the root has dependencies and the catalog's candidates have in all, and one more, is enough.
  pub solve-ends :
      (fuel : ℕ) (root : Candidate)
      → AreKeyed catalog root
      → length root.depends_on + open_deps catalog [] < fuel
      → solve installed catalog fuel root ≢ out_of_fuel
  unfolding solve
  solve-ends fuel root h f e = elim (Bool-cases (str_eq (candidate_key root) "")) [
    | inl a ↦ cc (rw (a, solve) at e)
    | inr a ↦
        resolve_recursive-ends fuel ((candidate_key root, root) ∷ []) (requirements root)
          (All-map (Keyed catalog) (prepare root) root.depends_on h)
          (let falls : open_deps catalog ((candidate_key root, root) ∷ []) ≤ open_deps catalog [] =
              fewer root in
            omega (arith, length-requirements root, falls))
          (rw (a, solve) at e)
  ]
