-- ===== src/Install/Measure.antt =====
-- The dependencies that a catalog still has in store: selecting a candidate takes its own away.
use infinitas_skill.Prelude.{
  ℕ, ◌+◌, ◌≤◌, String, true, false, none, List, [], ◌∷◌, ◌≡◌, sym, subst, ap, ◌∙◌, str_eq, eq_iff,
  All, Bool-cases, inl, inr, arith, if◌then◌else◌, All-mono, length, is_some,
}
use infinitas_skill.Install.Model.{Entry, Candidate, Catalog, Dict, candidate_key, assign, lookup}
use infinitas_skill.Install.Matching.{pool}
use infinitas_skill.Install.Lookup.{lookup-assign_self, lookup-assign_ne, str_ne}
use infinitas_skill.Install.Sound.{pool-All}

-- The dependencies of candidates whose key is not selected
unfoldable pub open_in : Dict Candidate → List Candidate → ℕ
open_in selected [] = 0
open_in selected (c ∷ cs) =
    let rest = open_in selected cs in
    if is_some (lookup (candidate_key c) selected) then rest else length c.depends_on + rest

unfoldable pub open_of : Dict Candidate → Dict (List Candidate) → ℕ
unfolding open_in
open_of selected [] = 0
open_of selected ((k, cs) ∷ d) = open_in selected cs + open_of selected d

-- A key stays selected.
stays :
    (k j : String) (c : Candidate) (d : Dict Candidate)
    → is_some (lookup j d) ≡ true
    → is_some (lookup j (assign k c d)) ≡ true
stays k j c d h = elim (Bool-cases (str_eq j k)) [
  | inl e ↦
      subst (λ i. is_some (lookup i (assign k c d)) ≡ true) (sym ((eq_iff j k).0 e))
        (ap is_some (lookup-assign_self k c d))
  | inr e ↦ ap is_some (lookup-assign_ne k j c d (str_ne j k e)) ∙ h
]

open_in_mono :
    (k : String) (c : Candidate) (sel : Dict Candidate) (cs : List Candidate)
    → open_in (assign k c sel) cs ≤ open_in sel cs
unfolding open_in
open_in_mono k c sel [] = omega arith
open_in_mono k c sel (x ∷ cs) = elim (Bool-cases (is_some (lookup (candidate_key x) sel))) [
  | inl e ↦ rw (e, stays k (candidate_key x) c sel e) (open_in_mono k c sel cs)
  | inr e ↦ rw e (ground (arith, open_in_mono k c sel cs))
]

pub open_of_mono :
    (k : String) (c : Candidate) (sel : Dict Candidate) (d : Dict (List Candidate))
    → open_of (assign k c sel) d ≤ open_of sel d
unfolding open_of
open_of_mono k c sel [] = omega arith
open_of_mono k c sel ((i, cs) ∷ d) = omega (arith, open_in_mono k c sel cs, open_of_mono k c sel d)

-- Selecting the candidate takes its dependencies out of the count.
abbrev pub Falls : (Dict Candidate → ℕ) → Candidate → Type 0
Falls measure c =
    (sel : Dict Candidate)
    → lookup (candidate_key c) sel ≡ none
    → measure (assign (candidate_key c) c sel) + length c.depends_on ≤ measure sel

each_drop : (cs : List Candidate) → All (Falls (λ s. open_in s cs)) cs
unfolding open_in
each_drop [] = tt
each_drop (c ∷ cs) = (
  λ sel n.
      let there = ap is_some (lookup-assign_self (candidate_key c) c sel) in
      let none_before : is_some (lookup (candidate_key c) sel) ≡ false = ap is_some n in
      rw (there, none_before) (omega (arith, open_in_mono (candidate_key c) c sel cs)),
  All-mono _ _ cs
      (λ d f sel n. elim (Bool-cases (is_some (lookup (candidate_key c) sel))) [
        | inl e ↦ rw (e, stays (candidate_key d) (candidate_key c) d sel e) (f sel n)
        | inr e ↦ rw e (ground (arith, f sel n))
      ])
      (each_drop cs),
)

Falls-plus :
    (f g : Dict Candidate → ℕ) (c : Candidate)
    → Falls f c
    → ((k : String) (sel : Dict Candidate) → g (assign k c sel) ≤ g sel)
    → Falls (λ s. f s + g s) c
Falls-plus f g c h m sel n = omega (arith, h sel n, m (candidate_key c) sel)

Falls-swap :
    (f g : Dict Candidate → ℕ) (c : Candidate) → Falls (λ s. f s + g s) c → Falls (λ s. g s + f s) c
Falls-swap f g c h sel n = omega (arith, h sel n)

each_drop_of : (d : Dict (List Candidate)) → All (λ p. All (Falls (λ s. open_of s d)) p.1) d
unfolding open_of
each_drop_of [] = tt
each_drop_of ((k, cs) ∷ d) = (
  All-mono _ _ cs
      (λ c f.
        Falls-plus (λ s. open_in s cs) (λ s. open_of s d) c f (λ j sel. open_of_mono j c sel d))
      (each_drop cs),
  All-mono _ _ d
      (λ p h.
        All-mono _ _ p.1
          (λ c f.
            Falls-swap (λ s. open_of s d) (λ s. open_in s cs) c
              (Falls-plus (λ s. open_of s d) (λ s. open_in s cs) c f
                (λ j sel. open_in_mono j c sel cs)))
          h)
      (each_drop_of d),
)

module _ (catalog : Catalog) where
  -- The dependencies that the catalog still has in store for a selection
  unfoldable pub open_deps : Dict Candidate → ℕ
  unfolding open_of
  open_deps selected = open_of selected catalog.by_identity + open_of selected catalog.by_name

  pub pool-Falls : (e : Entry) → All (Falls open_deps) (pool catalog e)
  unfolding open_deps
  pool-Falls e =
      let f = λ (s : Dict Candidate). open_of s catalog.by_identity in
      let g = λ (s : Dict Candidate). open_of s catalog.by_name in
      pool-All (Falls open_deps) catalog e
        (All-mono _ _ catalog.by_identity
          (λ p h.
            All-mono _ _ p.1 (λ c q. Falls-plus f g c q (λ j s. open_of_mono j c s catalog.by_name))
              h)
          (each_drop_of catalog.by_identity))
        (All-mono _ _ catalog.by_name
          (λ p h.
            All-mono _ _ p.1
              (λ c q.
                Falls-swap g f c
                  (Falls-plus g f c q (λ j s. open_of_mono j c s catalog.by_identity)))
              h)
          (each_drop_of catalog.by_name))
