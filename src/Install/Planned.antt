-- ===== src/Install/Planned.antt =====
-- The steps of a plan: they are found, and follow their dependencies.
use infinitas_skill.Prelude.{
  ℕ, zero, suc, ◌≤◌, ◌<◌, String, false, some, List, [], ◌∷◌, ◌++◌, ◌≡◌, refl, sym, ap, str_eq,
  length, All, Option-cases, inl, inr, arith,
}
use infinitas_skill.Prelude.Sort.{sort_by}
use infinitas_skill.Install.Model.{
  Entry, Candidate, Installed, Dict, entry_key, candidate_key, lookup,
}
use infinitas_skill.Install.Plan.{
  built, Trace, enter, leave, start, elem, visit_all, compare_dep, visit_new, visit, plan_action,
  Step, Requester, add_requester, requester, add_requesters, requesters, make_step, make_steps,
  build_plan,
}
use infinitas_skill.Install.Visit.{Built-cases, IsDistinct, IsSelected, visit-Grown, start-IsTrace}
use infinitas_skill.Install.Applied.{IsOrdered, nothing, IsRank, visit-IsOrdered}
use infinitas_skill.Install.Returns.{unvisited, visit-Returns}

-- No dependency has an empty name.
abbrev pub HasNames : Candidate → Type 0
HasNames c = All (λ e. str_eq (entry_key e) "" ≡ false) c.depends_on

add_requesters-returns :
    (c : Candidate) (deps : List Entry) (d : Dict (List Requester))
    → All (λ e. str_eq (entry_key e) "" ≡ false) deps
    → (d' : Dict (List Requester)) × (add_requesters c deps d ≡ built d')
unfolding add_requesters
add_requesters-returns c [] d h = (d, refl)
add_requesters-returns c (e ∷ deps) d h =
    let (d', q) =
      add_requesters-returns c deps (add_requester (entry_key e) (requester c e) d) h.1 in
    (d', rw (h.0, add_requesters) q)

requesters-returns :
    (selected : Dict Candidate) (d : Dict (List Requester))
    → All (λ p. HasNames p.1) selected
    → (d' : Dict (List Requester)) × (requesters selected d ≡ built d')
unfolding requesters
requesters-returns [] d h = (d, refl)
requesters-returns ((k, c) ∷ selected) d h =
    let (d', q) = add_requesters-returns c c.depends_on d h.0 in
    let (d'', q') = requesters-returns selected d' h.1 in (d'', rw (q, requesters) q')

unvisited_start : (d : Dict Candidate) → unvisited [] d ≤ length d
unfolding elem
unvisited_start [] = omega arith
unvisited_start ((k, c) ∷ d) = omega (arith, unvisited_start d)

module _ (root : Candidate) (selected : Dict Candidate) (installed : Dict Installed)
    (mode : String) where
  -- The steps are those of the identities, numbered in turn; each has the action that `plan_action` gives.
  abbrev pub StepsOf : ℕ → List String → List Step → Type 0
  StepsOf i [] [] = Unit
  StepsOf i [] (s ∷ steps) = ⊥
  StepsOf i (k ∷ order) [] = ⊥
  StepsOf i (k ∷ order) (s ∷ steps) =
      ((s.order ≡ i)
        × ((lookup k selected ≡ some s.candidate)
            × (s.action ≡ plan_action k s.candidate (lookup k installed) root mode)))
      × StepsOf (suc i) order steps

  make_steps-StepsOf :
      (by : Dict (List Requester)) (i : ℕ) (order : List String)
      → All (IsSelected selected) order
      → (steps : List Step) × ((make_steps root selected installed mode by i order ≡ built steps)
          × StepsOf i order steps)
  unfolding make_steps make_step
  make_steps-StepsOf by i [] h = ([], (refl, tt))
  make_steps-StepsOf by i (k ∷ order) h = elim (Option-cases (lookup k selected)) [
    | inl n ↦ absurd (cc (rw n at h.0))
    | inr (c, n) ↦
        let (steps, (e, s)) = make_steps-StepsOf by (suc i) order h.1 in
        (
          make_step root selected installed mode by i k c ∷ steps,
          (rw (n, make_steps, e) refl, ((refl, (n, refl)), s)),
        )
  ]

  -- What a plan promises
  pub record IsPlan (steps : List Step) : Type 0 where
    pub order : List String
    pub steps_of : StepsOf 1 order steps
    pub ordered : IsOrdered selected order
    pub distinct : IsDistinct order
    pub before : List String
    pub root_last : order ≡ before ++ candidate_key root ∷ []

  visit_root :
      (fuel : ℕ) (t : Trace)
      → visit selected fuel (candidate_key root) start ≡ built t
      → (before : List String) × (t.order ≡ before ++ candidate_key root ∷ [])
  unfolding visit visit_new elem
  visit_root zero t e = absurd (cc e)
  visit_root (suc fuel) t e = elim (Option-cases (lookup (candidate_key root) selected)) [
    | inl m ↦ absurd (cc (rw (visit_new, m) at e))
    | inr (c, m) ↦
        elim (Built-cases (
          visit_all selected (visit selected fuel) (sort_by compare_dep c.depends_on)
            (enter (candidate_key root) start))) [
              | inl (u, f) ↦
                  let e' : built (leave (candidate_key root) u) ≡ built t =
                    rw (visit_new, m, f) at e in
                  let e'' : leave (candidate_key root) u ≡ t = cc e' in
                  (u.order, sym (ap (λ (s : Trace). s.order) e''))
              | inr (inl f) ↦ absurd (cc (rw (visit_new, m, f) at e))
              | inr (inr (inl f)) ↦ absurd (cc (rw (visit_new, m, f) at e))
              | inr (inr (inr f)) ↦ absurd (cc (rw (visit_new, m, f) at e))
            ]
  ]

  -- Where the root is selected, all dependencies have names and there is no cycle, a recursion deeper
  -- than the selection is long is enough for a plan: every identity stands in it once, after its
  -- selected dependencies, and the root is the last.
  pub build_plan-IsPlan :
      (fuel : ℕ) (rank : String → ℕ)
      → str_eq (candidate_key root) "" ≡ false
      → IsSelected selected (candidate_key root)
      → All (λ p. HasNames p.1) selected
      → IsRank selected rank
      → length selected < fuel
      → (steps : List Step) × ((build_plan root selected installed mode fuel ≡ built steps)
          × IsPlan steps)
  unfolding build_plan
  build_plan-IsPlan fuel rank a h names ranked f =
      let key = candidate_key root in
      let (t, e) =
        visit-Returns selected fuel key start (start-IsTrace selected) h
          (omega (arith, unvisited_start selected)) in
      let (p, (g, v)) = visit-Grown selected fuel key start t (start-IsTrace selected) e in
      let (by, q) = requesters-returns selected [] names in
      let (steps, (m, s)) = make_steps-StepsOf by 1 t.order p.known in
      let (before, last) = visit_root fuel t e in
      (
        steps,
        (
          rw (a, e, q) m,
          record {
            order = t.order;
            steps_of = s;
            ordered =
                visit-IsOrdered selected rank ranked fuel key start t (start-IsTrace selected)
                  nothing (λ x w n. absurd (cc w)) e;
            distinct = p.distinct;
            before = before;
            root_last = last;
          },
        ),
      )
