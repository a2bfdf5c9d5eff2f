-- ===== src/Install/Sound.antt =====
-- The selection that the search returns meets all requirements.
use infinitas_skill.Prelude.{
  ℕ, zero, suc, String, true, none, some, List, [], ◌∷◌, ◌++◌, ◌≡◌, ◌≢◌, refl, sym, subst, ◌∙◌,
  str_eq, eq_iff, All, Bool-cases, Option-cases, ◌⊎◌, inl, inr, arith, All-mono, All-append,
}
use infinitas_skill.Prelude.Sort.{sort_by, All-sort_by, sort_by-All}
use infinitas_skill.Install.Model.{
  Entry, Requirement, Candidate, Installed, Catalog, Dict, Outcome, done, entry_key, candidate_key,
  assign, lookup,
}
use infinitas_skill.Install.Matching.{satisfies, candidate_satisfies_all, pool}
use infinitas_skill.Install.Solver.{
  resolve_recursive, solve, requirements, prepare, same_name, others, has_key, compare_pending,
}
use infinitas_skill.Install.Lookup.{
  lookup-assign_self, lookup-assign_ne, lookup-All, All-select, All-split, select-All,
  append-All_left, append-All_right, All-map, All-zip, str_ne,
}
use infinitas_skill.Install.Steps.{
  Chosen, chosen, Succeeds, nothing, kept, picked, resolve_group-Succeeds,
  candidate_satisfies_all-All,
}

-- A requirement is met: the candidate of its key satisfies it and is installable.
pub record Met (selected : Dict Candidate) (q : Requirement) : Type 0 where
  pub by : Candidate
  pub found : lookup (entry_key q.entry) selected ≡ some by
  pub satisfied : satisfies by q ≡ some true
  pub installable : by.installable ≡ true

-- An entry names an identity as the catalog does: what is offered for it has the key that it asks for.
abbrev pub IsKeyed : Catalog → Entry → Type 0
IsKeyed catalog e = All (λ c. candidate_key c ≡ entry_key e) (pool catalog e)

abbrev pub AreKeyed : Catalog → Candidate → Type 0
AreKeyed catalog c = All (IsKeyed catalog) c.depends_on

-- All candidates of the catalog name their dependencies so.
pub record IsNamed (catalog : Catalog) : Type 0 where
  pub identities : All (λ p. All (AreKeyed catalog) p.1) catalog.by_identity
  pub names : All (λ p. All (AreKeyed catalog) p.1) catalog.by_name

pub pool-All :
    (P : Candidate → Type 0) (catalog : Catalog) (e : Entry)
    → All (λ p. All P p.1) catalog.by_identity
    → All (λ p. All P p.1) catalog.by_name
    → All P (pool catalog e)
unfolding pool
pool-All P catalog e h k = elim (Option-cases (lookup (entry_key e) catalog.by_identity)) [
  | inr (l, n) ↦ rw (n, pool) (lookup-All (All P) (entry_key e) catalog.by_identity l h n)
  | inl n ↦ elim (Option-cases (lookup e.name catalog.by_name)) [
    | inr (l, m) ↦ rw (n, pool, m) (lookup-All (All P) e.name catalog.by_name l k m)
    | inl m ↦ rw (n, pool, m) tt
  ]
]

-- What the search adds to a selection and has checked
pub record Extension (selected : Dict Candidate) (pending : List Requirement)
    (found : Dict Candidate) : Type 0 where
  pub keeps : (k : String) (c : Candidate) → lookup k selected ≡ some c → lookup k found ≡ some c
  pub meets : All (Met found) pending
  pub serves :
      (k : String) (c : Candidate)
      → lookup k found ≡ some c
      → (lookup k selected ≡ some c) ⊎ All (Met found) (requirements c)

abbrev pub Keyed : Catalog → Requirement → Type 0
Keyed catalog q = IsKeyed catalog q.entry

module _ (installed : Dict Installed) (catalog : Catalog) (named : IsNamed catalog) where
  -- A search that extends, for the recursive call
  abbrev Extends : (Dict Candidate → List Requirement → Outcome (Dict Candidate)) → Type 0
  Extends go =
      (selected : Dict Candidate) (pending : List Requirement) (found : Dict Candidate)
      → All (Keyed catalog) pending
      → go selected pending ≡ done found
      → Extension selected pending found

  -- The requirements of a group have its key.
  group-key :
      (first : Requirement) (l : List Requirement)
      → All (λ q. entry_key q.entry ≡ entry_key first.entry) (same_name first l)
  group-key first l = (
    refl,
    All-mono _ _ _ (λ q e. (eq_iff (entry_key q.entry) (entry_key first.entry)).0 e)
        (select-All (λ _. Unit) (has_key (entry_key first.entry)) l),
  )

  meets_group :
      (first : Requirement) (l : List Requirement) (c : Candidate) (found : Dict Candidate)
      → lookup (entry_key first.entry) found ≡ some c
      → candidate_satisfies_all c (same_name first l) ≡ some true
      → All (Met found) (same_name first l)
  meets_group first l c found e h =
      let (each, i) = candidate_satisfies_all-All c (same_name first l) h in
      All-mono _ (Met found) (same_name first l)
        (λ q p. record {
          by = c;
          found = subst (λ k. lookup k found ≡ some c) (sym p.1) e;
          satisfied = p.0;
          installable = i;
        })
        (All-zip _ _ (same_name first l) each (group-key first l))

  choice-Extension :
      (go : Dict Candidate → List Requirement → Outcome (Dict Candidate))
      → Extends go
      → (first : Requirement) (l : List Requirement) (selected found : Dict Candidate)
      → lookup (entry_key first.entry) selected ≡ none
      → All (Keyed catalog) (first ∷ l)
      → Chosen
          (λ c.
            ((candidate_key c ≡ entry_key first.entry) × AreKeyed catalog c)
            × (candidate_satisfies_all c (same_name first l) ≡ some true))
          go
          selected
          (others first l)
          (done found)
      → Extension selected (first ∷ l) found
  choice-Extension go ih first l selected found n h (chosen c ((k, a), s) _ _ g) =
      let key = candidate_key c in
      let ext =
        ih (assign key c selected) (others first l ++ requirements c) found
          (All-append (Keyed catalog) (others first l) (requirements c)
            (All-select (Keyed catalog) _ l h.1)
            (All-map (Keyed catalog) (prepare c) c.depends_on a))
          g in
      let self : lookup key found ≡ some c = ext.keeps key c (lookup-assign_self key c selected) in
      let here : lookup (entry_key first.entry) found ≡ some c =
        subst (λ j. lookup j found ≡ some c) k self in
      let group = meets_group first l c found here s in
      let old = append-All_left (Met found) (others first l) (requirements c) ext.meets in
      let own = append-All_right (Met found) (others first l) (requirements c) ext.meets in
      let fresh : lookup key selected ≡ none = subst (λ j. lookup j selected ≡ none) (sym k) n in
      record {
        keeps = λ j d e.
            let ne : j ≢ key = λ q. cc (subst (λ i. lookup i selected ≡ some d) q e, fresh) in
            ext.keeps j d (lookup-assign_ne key j c selected ne ∙ e);
        meets = (group.0, All-split (Met found) (has_key (entry_key first.entry)) l group.1 old);
        serves = λ j d e. elim (ext.serves j d e) [
          | inr r ↦ inr r
          | inl q ↦ elim (Bool-cases (str_eq j key)) [
            | inl b ↦
                let q' = subst (λ i. lookup i found ≡ some d) ((eq_iff j key).0 b) e in
                let same : c ≡ d = cc (q', self) in
                inr (subst (λ (x : Candidate). All (Met found) (requirements x)) same own)
            | inr b ↦ inl (sym (lookup-assign_ne key j c selected (str_ne j key b)) ∙ q)
          ]
        ];
      }

  kept-Extension :
      (go : Dict Candidate → List Requirement → Outcome (Dict Candidate))
      → Extends go
      → (first : Requirement) (l : List Requirement) (selected found : Dict Candidate)
        (c : Candidate)
      → lookup (entry_key first.entry) selected ≡ some c
      → candidate_satisfies_all c (same_name first l) ≡ some true
      → All (Keyed catalog) (first ∷ l)
      → go selected (others first l) ≡ done found
      → Extension selected (first ∷ l) found
  kept-Extension go ih first l selected found c n m h e =
      let ext = ih selected (others first l) found (All-select (Keyed catalog) _ l h.1) e in
      let group = meets_group first l c found (ext.keeps (entry_key first.entry) c n) m in
      record {
        keeps = ext.keeps;
        meets =
            (group.0, All-split (Met found) (has_key (entry_key first.entry)) l group.1 ext.meets);
        serves = ext.serves;
      }

  resolve_group-Extension :
      (go : Dict Candidate → List Requirement → Outcome (Dict Candidate))
      → Extends go
      → (selected : Dict Candidate) (pending : List Requirement) (found : Dict Candidate)
      → All (Keyed catalog) pending
      → Succeeds
          (λ e c. (candidate_key c ≡ entry_key e) × AreKeyed catalog c)
          go
          selected
          pending
          found
      → Extension selected pending found
  resolve_group-Extension go ih selected _ _ h nothing = record {
    keeps = λ k c q. q;
    meets = tt;
    serves = λ k c q. inl q;
  }
  resolve_group-Extension go ih selected _ found h (kept first l c n m e) =
      kept-Extension go ih first l selected found c n m h e
  resolve_group-Extension go ih selected _ found h (picked first l n pick) =
      choice-Extension go ih first l selected found n h pick

  -- Soundness of the search, by induction on its fuel
  resolve_recursive-Extension : (fuel : ℕ) → Extends (resolve_recursive installed catalog fuel)
  unfolding resolve_recursive
  resolve_recursive-Extension zero selected pending found h e = absurd (cc e)
  resolve_recursive-Extension (suc fuel) selected pending found h e =
      let ext =
        resolve_group-Extension (resolve_recursive installed catalog fuel)
          (resolve_recursive-Extension fuel) selected (sort_by compare_pending pending) found
          (All-sort_by (Keyed catalog) compare_pending pending h)
          (resolve_group-Succeeds installed catalog _ _ selected _ found
            (All-mono (Keyed catalog) _ (sort_by compare_pending pending)
              (λ q k.
                All-zip _ _ (pool catalog q.entry) k
                  (pool-All (AreKeyed catalog) catalog q.entry named.identities named.names))
              (All-sort_by (Keyed catalog) compare_pending pending h))
            e) in
      record {
        keeps = ext.keeps;
        meets = sort_by-All (Met found) compare_pending pending ext.meets;
        serves = ext.serves;
      }

  -- Where all dependencies are named as the catalog names them, the selection that the search returns
  -- has the root, and meets every dependency of every selected candidate: the candidate of its key
  -- satisfies it and is installable.
  pub solve-Met :
      (fuel : ℕ) (root : Candidate) (found : Dict Candidate)
      → AreKeyed catalog root
      → solve installed catalog fuel root ≡ done found
      → (lookup (candidate_key root) found ≡ some root)
        × ((k : String) (c : Candidate)
            → lookup k found ≡ some c
            → All (Met found) (requirements c))
  unfolding solve lookup
  solve-Met fuel root found h e = elim (Bool-cases (str_eq (candidate_key root) "")) [
    | inl a ↦ absurd (cc (rw (a, solve) at e))
    | inr a ↦
        let ext =
          resolve_recursive-Extension fuel ((candidate_key root, root) ∷ []) (requirements root)
            found (All-map (Keyed catalog) (prepare root) root.depends_on h) (rw (a, solve) at e) in
        let key = candidate_key root in
        (
          ext.keeps key root (rw ((eq_iff key key).1 refl) refl),
          λ k c q. elim (ext.serves k c q) [
            | inr r ↦ r
            | inl s ↦ elim (Bool-cases (str_eq key k)) [
              | inl b ↦
                  let same : root ≡ c = ground (arith, s, b) in
                  subst (λ (x : Candidate). All (Met found) (requirements x)) same ext.meets
              | inr b ↦ absurd (ground (arith, s, b))
            ]
          ],
        )
  ]
