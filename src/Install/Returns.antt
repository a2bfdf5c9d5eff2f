-- ===== src/Install/Returns.antt =====
-- A visit of the selection returns.
use infinitas_skill.Prelude.{
  ℕ, zero, suc, ◌≤◌, ◌<◌, String, true, false, some, List, [], ◌∷◌, ◌≡◌, refl, sym, subst, str_eq,
  eq_iff, Bool-cases, Option-cases, inl, inr, arith, if◌then◌else◌, is_some,
}
use infinitas_skill.Prelude.Sort.{sort_by}
use infinitas_skill.Install.Model.{Entry, Candidate, Dict, entry_key, lookup}
use infinitas_skill.Install.Plan.{
  Built, built, Trace, enter, leave, elem, visit_all, visit_new, visit, compare_dep,
}
use infinitas_skill.Install.Visit.{
  elem_here, elem_there, IsTrace, IsSelected, visit-Grown, enter-IsTrace,
}

-- How many keys of a dict are not visited
abbrev pub unvisited : List String → Dict Candidate → ℕ
unvisited v [] = 0
unvisited v ((k, _) ∷ d) = let rest = unvisited v d in if elem k v then rest else suc rest

unvisited_mono :
    (v w : List String) (d : Dict Candidate)
    → ((x : String) → elem x v ≡ true → elem x w ≡ true)
    → unvisited w d ≤ unvisited v d
unvisited_mono v w [] h = omega arith
unvisited_mono v w ((k, _) ∷ d) h = elim (Bool-cases (elem k v)) [
  | inl e ↦ rw (e, h k e) (unvisited_mono v w d h)
  | inr e ↦ ground (arith, e, unvisited_mono v w d h)
]

unvisited_falls :
    (k : String) (c : Candidate) (v : List String) (d : Dict Candidate)
    → lookup k d ≡ some c
    → elem k v ≡ false
    → unvisited (k ∷ v) d < unvisited v d
unfolding lookup
unvisited_falls k c v [] h n = absurd (cc h)
unvisited_falls k c v ((i, b) ∷ d) h n =
    let mono = unvisited_mono v (k ∷ v) d (λ x e. elem_there x k v e) in
    elim (Bool-cases (str_eq i k)) [
      | inl e ↦
          let same = (eq_iff i k).0 e in
          let here : elem i (k ∷ v) ≡ true =
            subst (λ x. elem x (k ∷ v) ≡ true) (sym same) (elem_here k v) in
          let gone : elem i v ≡ false = subst (λ x. elem x v ≡ false) (sym same) n in
          rw (here, gone) (omega arith)
      | inr e ↦
          let falls = unvisited_falls k c v d (rw (e, lookup) at h) n in
          elim (Bool-cases (elem i v)) [
            | inl f ↦ rw (f, elem_there i k v f) falls
            | inr f ↦ ground (arith, f, falls)
          ]
    ]

module _ (selected : Dict Candidate) where
  abbrev Returns : ℕ → (String → Trace → Built Trace) → Type 0
  Returns fuel go =
      (k : String) (s : Trace)
      → IsTrace selected s
      → IsSelected selected k
      → unvisited s.visited selected < fuel
      → (t : Trace) × (go k s ≡ built t)

  visit_all-Returns :
      (fuel inner : ℕ)
      → Returns fuel (visit selected inner)
      → (deps : List Entry) (s : Trace) → IsTrace selected s
      → unvisited s.visited selected < fuel
      → (t : Trace) × (visit_all selected (visit selected inner) deps s ≡ built t)
  unfolding visit_all
  visit_all-Returns fuel inner ih [] s p f = (s, refl)
  visit_all-Returns fuel inner ih (d ∷ deps) s p f =
      elim (Bool-cases (is_some (lookup (entry_key d) selected))) [
        | inr n ↦ let (t, e) = visit_all-Returns fuel inner ih deps s p f in (t, rw n e)
        | inl n ↦
            let (u, m) = ih (entry_key d) s p n f in
            let (p', (g, _)) = visit-Grown selected inner (entry_key d) s u p m in
            let (t, e) =
              visit_all-Returns fuel inner ih deps u p'
                (omega (arith, unvisited_mono s.visited u.visited selected g.visited)) in
            (t, rw n (rw m e))
      ]

  visit_new-leave :
      (go : String → Trace → Built Trace) (k : String) (s u : Trace) (c : Candidate)
      → lookup k selected ≡ some c
      → visit_all selected go (sort_by compare_dep c.depends_on) (enter k s) ≡ built u
      → visit_new selected go k s ≡ built (leave k u)
  unfolding visit_new
  visit_new-leave go k s u c m e = rw (m, visit_new, e) refl

  -- With more fuel than identities that are not visited, a visit returns.
  pub visit-Returns : (fuel : ℕ) → Returns fuel (visit selected fuel)
  unfolding visit
  visit-Returns zero k s p h f = absurd (omega arith)
  visit-Returns (suc fuel) k s p h f = elim (Bool-cases (elem k s.visited)) [
    | inl n ↦ (s, rw n refl)
    | inr n ↦ elim (Option-cases (lookup k selected)) [
      | inl m ↦ absurd (cc (rw m at h))
      | inr (c, m) ↦
          let falls = unvisited_falls k c s.visited selected m n in
          let (u, e) =
            visit_all-Returns fuel fuel (visit-Returns fuel) (sort_by compare_dep c.depends_on)
              (enter k s) (enter-IsTrace selected k s p) (omega (arith, falls)) in
          (leave k u, rw n (visit_new-leave (visit selected fuel) k s u c m e))
    ]
  ]
