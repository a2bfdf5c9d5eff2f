-- ===== src/Install/Visit.antt =====
-- What a visit of the selection does to its trace.
use infinitas_skill.Prelude.{
  ℕ, zero, suc, String, true, false, List, [], ◌∷◌, ◌++◌, ◌≡◌, refl, sym, subst, ◌∙◌, str_eq,
  eq_iff, All, Bool-cases, Option-cases, inl, inr, arith, ◌||◌, ◌⊎◌, is_some, All-append,
}
use infinitas_skill.Prelude.Sort.{sort_by}
use infinitas_skill.Install.Model.{Entry, Candidate, Dict, entry_key, lookup}
use infinitas_skill.Install.Plan.{
  Built, built, bad_value, missing_key, unfinished, Trace, enter, leave, start, elem, visit_all,
  visit_new, visit, compare_dep,
}

pub Built-cases {ℓ} :
    {A : Type ℓ} (o : Built A)
    → ((a : A) × (o ≡ built a)) ⊎ ((o ≡ bad_value) ⊎ ((o ≡ missing_key) ⊎ (o ≡ unfinished)))
Built-cases (built a) = inl (a, refl)
Built-cases bad_value = inr (inl refl)
Built-cases missing_key = inr (inr (inl refl))
Built-cases unfinished = inr (inr (inr refl))

pub elem-append : (x : String) (l r : List String) → elem x (l ++ r) ≡ (elem x l || elem x r)
unfolding elem
elem-append x [] r = refl
elem-append x (y ∷ l) r = ground (arith, elem-append x l r)

pub elem_here : (k : String) (l : List String) → elem k (k ∷ l) ≡ true
unfolding elem
elem_here k l = rw ((eq_iff k k).1 refl) refl

pub elem_there : (x k : String) (l : List String) → elem x l ≡ true → elem x (k ∷ l) ≡ true
unfolding elem
elem_there x k l h = ground arith

-- All items of a list are different.
abbrev pub IsDistinct : List String → Type 0
IsDistinct [] = Unit
IsDistinct (x ∷ l) = (elem x l ≡ false) × IsDistinct l

snoc-IsDistinct :
    (l : List String) (k : String) → IsDistinct l → elem k l ≡ false → IsDistinct (l ++ k ∷ [])
unfolding elem
snoc-IsDistinct [] k h n = (refl, tt)
snoc-IsDistinct (x ∷ l) k h n = elim (Bool-cases (str_eq x k)) [
  | inl e ↦ absurd (cc (rw (e, elem) at n))
  | inr e ↦
      let away : str_eq k x ≡ false = differ x k e in
      let apart : elem x (l ++ k ∷ []) ≡ false =
        elem-append x l (k ∷ []) ∙ rw (h.0) (rw away refl) in
      (apart, snoc-IsDistinct l k h.1 (rw (e, elem) at n))
]
  where
    differ : (s t : String) → str_eq s t ≡ false → str_eq t s ≡ false
    differ s t f = elim (Bool-cases (str_eq t s)) [
      | inl g ↦ absurd (cc (f, (eq_iff s t).1 (sym ((eq_iff t s).0 g))))
      | inr g ↦ g
    ]

-- From one trace to a later one nothing is lost, and the same identities are open: visited, and not
-- yet in the order.
pub record Grown (s t : Trace) : Type 0 where
  pub visited : (x : String) → elem x s.visited ≡ true → elem x t.visited ≡ true
  pub ordered : (x : String) → elem x s.order ≡ true → elem x t.order ≡ true
  pub stays_open :
      (x : String) → elem x s.visited ≡ true → elem x s.order ≡ false → elem x t.order ≡ false
  pub was_open :
      (x : String)
      → elem x t.visited ≡ true
      → elem x t.order ≡ false
      → (elem x s.visited ≡ true) × (elem x s.order ≡ false)

Grown-refl : (s : Trace) → Grown s s
Grown-refl s = record {
  visited = λ x h. h;
  ordered = λ x h. h;
  stays_open = λ x h k. k;
  was_open = λ x h k. (h, k);
}

Grown-trans : {s t u : Trace} → Grown s t → Grown t u → Grown s u
Grown-trans a b = record {
  visited = λ x h. b.visited x (a.visited x h);
  ordered = λ x h. b.ordered x (a.ordered x h);
  stays_open = λ x h k. b.stays_open x (a.visited x h) (a.stays_open x h k);
  was_open = λ x h k. let p = b.was_open x h k in a.was_open x p.0 p.1;
}

module _ (selected : Dict Candidate) where
  abbrev pub IsSelected : String → Type 0
  IsSelected k = is_some (lookup k selected) ≡ true

  pub record IsTrace (s : Trace) : Type 0 where
    pub within : (x : String) → elem x s.order ≡ true → elem x s.visited ≡ true
    pub distinct : IsDistinct s.order
    pub known : All IsSelected s.order

  -- The dependencies that are selected are visited.
  abbrev pub AllVisited : List Entry → Trace → Type 0
  AllVisited deps t = All (λ e. IsSelected (entry_key e) → elem (entry_key e) t.visited ≡ true) deps

  abbrev pub Visits : (String → Trace → Built Trace) → Type 0
  Visits go =
      (k : String) (s t : Trace)
      → IsTrace s
      → go k s ≡ built t
      → IsTrace t × (Grown s t × (elem k t.visited ≡ true))

  pub visit_all-Grown :
      (go : String → Trace → Built Trace)
      → Visits go
      → (deps : List Entry) (s t : Trace) → IsTrace s
      → visit_all selected go deps s ≡ built t
      → IsTrace t × (Grown s t × AllVisited deps t)
  unfolding visit_all
  visit_all-Grown go ih [] s t p e =
      let e' : s ≡ t = cc e in (subst IsTrace e' p, (subst (Grown s) e' (Grown-refl s), tt))
  visit_all-Grown go ih (d ∷ deps) s t p e =
      elim (Bool-cases (is_some (lookup (entry_key d) selected))) [
        | inr n ↦
            let (q, (g, a)) = visit_all-Grown go ih deps s t p (rw (n, visit_all) at e) in
            (q, (g, ((λ h. absurd (cc (h, n))), a)))
        | inl n ↦ elim (Built-cases (go (entry_key d) s)) [
          | inl (u, m) ↦
              let (p', (g', v)) = ih (entry_key d) s u p m in
              let (q, (g, a)) = visit_all-Grown go ih deps u t p' (rw (n, visit_all, m) at e) in
              (q, (Grown-trans g' g, ((λ _. g.visited (entry_key d) v), a)))
          | inr (inl m) ↦ absurd (cc (rw (n, visit_all, m) at e))
          | inr (inr (inl m)) ↦ absurd (cc (rw (n, visit_all, m) at e))
          | inr (inr (inr m)) ↦ absurd (cc (rw (n, visit_all, m) at e))
        ]
      ]

  pub enter-IsTrace : (k : String) (s : Trace) → IsTrace s → IsTrace (enter k s)
  enter-IsTrace k s p = record {
    within = λ x h. elem_there x k s.visited (p.within x h);
    distinct = p.distinct;
    known = p.known;
  }

  not_ordered :
      (k : String) (s : Trace) → IsTrace s → elem k s.visited ≡ false → elem k s.order ≡ false
  not_ordered k s p n = elim (Bool-cases (elem k s.order)) [
    | inl h ↦ absurd (cc (p.within k h, n))
    | inr h ↦ h
  ]

  leave-Grown :
      (k : String) (s u : Trace)
      → IsTrace s
      → IsTrace u
      → elem k s.visited ≡ false
      → IsSelected k
      → Grown (enter k s) u
      → IsTrace (leave k u) × (Grown s (leave k u) × (elem k u.visited ≡ true))
  unfolding elem
  leave-Grown k s u p q n h g =
      let here = g.visited k (elem_here k s.visited) in
      let apart = g.stays_open k (elem_here k s.visited) (not_ordered k s p n) in
      let last = λ (x : String). elem-append x u.order (k ∷ []) in
      let same = λ (x : String) (e : str_eq k x ≡ true). (eq_iff k x).0 e in
      (
        record {
          within = λ x e. elim (Bool-cases (str_eq k x)) [
            | inl f ↦ subst (λ y. elem y u.visited ≡ true) (same x f) here
            | inr f ↦ q.within x (ground (arith, e, f, last x))
          ];
          distinct = snoc-IsDistinct u.order k q.distinct apart;
          known = All-append IsSelected u.order (k ∷ []) q.known (h, tt);
        },
        (
          record {
            visited = λ x e. g.visited x (elem_there x k s.visited e);
            ordered = λ x e. ground (arith, last x, g.ordered x e);
            stays_open = λ x e f. elim (Bool-cases (str_eq k x)) [
              | inl b ↦ absurd (cc (subst (λ y. elem y s.visited ≡ false) (same x b) n, e))
              | inr b ↦ ground (arith, last x, b, g.stays_open x (elem_there x k s.visited e) f)
            ];
            was_open = λ x e f.
                let b : str_eq k x ≡ false = ground (arith, last x, f) in
                let f' : elem x u.order ≡ false = ground (arith, last x, f) in
                let (a, c) = g.was_open x e f' in (ground (arith, a, b), c);
          },
          here,
        ),
      )

  visit_new-Grown :
      (go : String → Trace → Built Trace)
      → Visits go
      → (k : String) (s t : Trace) → IsTrace s
      → elem k s.visited ≡ false
      → visit_new selected go k s ≡ built t
      → IsTrace t × (Grown s t × (elem k t.visited ≡ true))
  unfolding visit_new
  visit_new-Grown go ih k s t p n e = elim (Option-cases (lookup k selected)) [
    | inl m ↦ absurd (cc (rw (m, visit_new) at e))
    | inr (c, m) ↦
        elim (Built-cases (visit_all selected go (sort_by compare_dep c.depends_on) (enter k s))) [
          | inl (u, f) ↦
              let e' : built (leave k u) ≡ built t = rw (m, visit_new, f) at e in
              let e'' : leave k u ≡ t = cc e' in
              let (q, (g, _)) =
                visit_all-Grown go ih (sort_by compare_dep c.depends_on) (enter k s) u
                  (enter-IsTrace k s p) f in
              subst (λ v. IsTrace v × (Grown s v × (elem k v.visited ≡ true))) e''
                (leave-Grown k s u p q n (rw m refl) g)
          | inr (inl f) ↦ absurd (cc (rw (m, visit_new, f) at e))
          | inr (inr (inl f)) ↦ absurd (cc (rw (m, visit_new, f) at e))
          | inr (inr (inr f)) ↦ absurd (cc (rw (m, visit_new, f) at e))
        ]
  ]

  pub visit-Grown : (fuel : ℕ) → Visits (visit selected fuel)
  unfolding visit
  visit-Grown zero k s t p e = absurd (cc e)
  visit-Grown (suc fuel) k s t p e = elim (Bool-cases (elem k s.visited)) [
    | inl n ↦
        let e' : built s ≡ built t = rw (n, visit) at e in
        let e'' : s ≡ t = cc e' in
        subst (λ v. IsTrace v × (Grown s v × (elem k v.visited ≡ true))) e'' (p, (Grown-refl s, n))
    | inr n ↦
        visit_new-Grown (visit selected fuel) (visit-Grown fuel) k s t p n (rw (n, visit) at e)
  ]

  pub start-IsTrace : IsTrace start
  unfolding elem
  start-IsTrace = record { within = λ x h. absurd (cc h); distinct = tt; known = tt }
