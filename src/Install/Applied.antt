-- ===== src/Install/Applied.antt =====
-- The order in which the steps of a plan are applied: a dependency stands before what depends on it.
use infinitas_skill.Prelude.{
  ℕ, zero, suc, ◌<◌, String, true, false, some, List, [], ◌∷◌, ◌++◌, ◌≡◌, sym, subst, ap, ◌∙◌,
  str_eq, eq_iff, All, All-mono, Bool-cases, Option-cases, inl, inr, arith, is_some,
}
use infinitas_skill.Prelude.Sort.{sort_by, All-sort_by, sort_by-All}
use infinitas_skill.Install.Model.{Entry, Candidate, Dict, entry_key, lookup}
use infinitas_skill.Install.Plan.{
  Built, built, Trace, enter, leave, elem, visit_all, visit_new, visit, compare_dep,
}
use infinitas_skill.Install.Visit.{
  Built-cases, Grown, IsTrace, IsSelected, visit_all-Grown, visit-Grown, enter-IsTrace,
}

module _ (selected : Dict Candidate) where
  -- The selected dependencies of an identity are in a list.
  abbrev pub Ready : List String → String → Type 0
  Ready l k =
      (c : Candidate)
      → lookup k selected ≡ some c
      → All (λ (e : Entry). IsSelected selected (entry_key e) → elem (entry_key e) l ≡ true)
          c.depends_on

  -- A list in which every identity follows its selected dependencies
  pub data IsOrdered : List String → Type 0 where
    nothing : IsOrdered []
    next : (l : List String) (k : String) → IsOrdered l → Ready l k → IsOrdered (l ++ k ∷ [])

  -- Dependencies lead to smaller ranks, so that there is no cycle.
  abbrev pub IsRank : (String → ℕ) → Type 0
  IsRank rank =
      (k : String) (c : Candidate)
      → lookup k selected ≡ some c
      → All (λ (e : Entry). IsSelected selected (entry_key e) → rank (entry_key e) < rank k)
          c.depends_on

All-both :
    {A : Type 0} (P Q R : A → Type 0)
    → ((a : A) → P a → Q a → R a)
    → (l : List A) → All P l
    → All Q l
    → All R l
All-both P Q R f [] h k = tt
All-both P Q R f (a ∷ l) h k = (f a h.0 k.0, All-both P Q R f l h.1 k.1)

module _ (selected : Dict Candidate) (rank : String → ℕ) (ranked : IsRank selected rank) where
  -- Every identity that is open has a greater rank.
  abbrev Above : ℕ → Trace → Type 0
  Above r s = (x : String) → elem x s.visited ≡ true → elem x s.order ≡ false → r < rank x

  abbrev Orders : (String → Trace → Built Trace) → Type 0
  Orders go =
      (k : String) (s t : Trace)
      → IsTrace selected s
      → IsOrdered selected s.order
      → Above (rank k) s
      → go k s ≡ built t
      → IsOrdered selected t.order

  entered :
      (k x : String) (s : Trace) → Above (rank k) s → rank x < rank k → Above (rank x) (enter k s)
  unfolding elem
  entered k x s a r y h n = elim (Bool-cases (str_eq k y)) [
    | inl f ↦ let same = ap rank ((eq_iff k y).0 f) in omega (arith, same, r)
    | inr f ↦ let above = a y (rw f at h) n in omega (arith, above, r)
  ]

  visit_all-IsOrdered :
      (fuel : ℕ)
      → Orders (visit selected fuel)
      → (deps : List Entry) (s t : Trace) → IsTrace selected s
      → IsOrdered selected s.order
      → All (λ (e : Entry). IsSelected selected (entry_key e) → Above (rank (entry_key e)) s) deps
      → visit_all selected (visit selected fuel) deps s ≡ built t
      → IsOrdered selected t.order
  unfolding visit_all
  visit_all-IsOrdered fuel ih [] s t p o a e =
      let e' : s ≡ t = cc e in subst (λ v. IsOrdered selected v.order) e' o
  visit_all-IsOrdered fuel ih (d ∷ deps) s t p o a e =
      elim (Bool-cases (is_some (lookup (entry_key d) selected))) [
        | inr n ↦ visit_all-IsOrdered fuel ih deps s t p o a.1 (rw (n, visit_all) at e)
        | inl n ↦ elim (Built-cases (visit selected fuel (entry_key d) s)) [
          | inl (u, m) ↦
              let (p', (g, _)) = visit-Grown selected fuel (entry_key d) s u p m in
              visit_all-IsOrdered fuel ih deps u t p' (ih (entry_key d) s u p o (a.0 n) m)
                (All-mono _ _ deps
                  (λ d' above h x v w. let q = g.was_open x v w in above h x q.0 q.1) a.1)
                (rw (n, visit_all, m) at e)
          | inr (inl m) ↦ absurd (cc (rw (n, visit_all, m) at e))
          | inr (inr (inl m)) ↦ absurd (cc (rw (n, visit_all, m) at e))
          | inr (inr (inr m)) ↦ absurd (cc (rw (n, visit_all, m) at e))
        ]
      ]

  -- What is visited and has a smaller rank than all that is open, is in the order.
  settled :
      (k x : String) (s u : Trace)
      → Above (rank k) s
      → Grown (enter k s) u
      → rank x < rank k
      → elem x u.visited ≡ true
      → elem x u.order ≡ true
  unfolding elem
  settled k x s u a g r v = elim (Bool-cases (elem x u.order)) [
    | inl e ↦ e
    | inr e ↦
        let (w, n) = g.was_open x v e in
        elim (Bool-cases (str_eq k x)) [
          | inl f ↦ let same = ap rank ((eq_iff k x).0 f) in absurd (omega (arith, same, r))
          | inr f ↦ let above = a x (rw f at w) n in absurd (omega (arith, above, r))
        ]
  ]

  visit_new-IsOrdered :
      (fuel : ℕ)
      → Orders (visit selected fuel)
      → (k : String) (s t : Trace) → IsTrace selected s
      → IsOrdered selected s.order
      → Above (rank k) s
      → visit_new selected (visit selected fuel) k s ≡ built t
      → IsOrdered selected t.order
  unfolding visit_new
  visit_new-IsOrdered fuel ih k s t p o a e = elim (Option-cases (lookup k selected)) [
    | inl m ↦ absurd (cc (rw (m, visit_new) at e))
    | inr (c, m) ↦
        elim (Built-cases (
          visit_all selected (visit selected fuel) (sort_by compare_dep c.depends_on)
            (enter k s))) [
              | inl (u, f) ↦
                  let e' : built (leave k u) ≡ built t = rw (m, visit_new, f) at e in
                  let e'' : leave k u ≡ t = cc e' in
                  let p' = enter-IsTrace selected k s p in
                  let (q, (g, v)) =
                    visit_all-Grown selected (visit selected fuel) (visit-Grown selected fuel)
                      (sort_by compare_dep c.depends_on) (enter k s) u p' f in
                  let o' =
                    visit_all-IsOrdered fuel ih (sort_by compare_dep c.depends_on) (enter k s) u p'
                      o
                      (All-sort_by _ compare_dep c.depends_on (
                        All-mono _ _ c.depends_on (λ d r h. entered k (entry_key d) s a (r h))
                          (ranked k c m)))
                      f in
                  let visits =
                    sort_by-All
                      (λ (d : Entry).
                        IsSelected selected (entry_key d) → elem (entry_key d) u.visited ≡ true)
                      compare_dep c.depends_on v in
                  let ready : Ready selected u.order k = λ c' m'.
                    let same' : some c ≡ some c' = sym m ∙ m' in
                    let same : c ≡ c' = cc same' in
                    subst
                      (λ (x : Candidate).
                        All
                          (λ (d : Entry).
                            IsSelected selected (entry_key d) → elem (entry_key d) u.order ≡ true)
                          x.depends_on)
                      same
                      (All-both _ _ _ (λ d r w h. settled k (entry_key d) s u a g (r h) (w h))
                        c.depends_on (ranked k c m) visits) in
                  subst (λ v. IsOrdered selected v.order) e'' (next u.order k o' ready)
              | inr (inl f) ↦ absurd (cc (rw (m, visit_new, f) at e))
              | inr (inr (inl f)) ↦ absurd (cc (rw (m, visit_new, f) at e))
              | inr (inr (inr f)) ↦ absurd (cc (rw (m, visit_new, f) at e))
            ]
  ]

  -- In a selection without a cycle, a visit keeps the order such that every identity follows its
  -- dependencies.
  pub visit-IsOrdered : (fuel : ℕ) → Orders (visit selected fuel)
  unfolding visit
  visit-IsOrdered zero k s t p o a e = absurd (cc e)
  visit-IsOrdered (suc fuel) k s t p o a e = elim (Bool-cases (elem k s.visited)) [
    | inl n ↦
        let e' : built s ≡ built t = rw (n, visit) at e in
        let e'' : s ≡ t = cc e' in subst (λ v. IsOrdered selected v.order) e'' o
    | inr n ↦ visit_new-IsOrdered fuel (visit-IsOrdered fuel) k s t p o a (rw (n, visit) at e)
  ]
