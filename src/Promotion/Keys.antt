-- ===== src/Promotion/Keys.antt =====
-- The keys of dicts, and of lists of pairs that are sorted or selected.
use Prim.Native.Nat.{Ordering}
use infinitas_skill.Prelude.{
  String, Bool, false, List, [], ◌∷◌, ◌||◌, ◌≡◌, refl, sym, ap, ◌∙◌, map, select, str_eq, eq_iff,
  Bool-cases, some, if◌then◌else◌, inl, inr, arith,
}
use infinitas_skill.Prelude.Sort.{sort_by, insert_by, in_front}
use infinitas_skill.Install.Model.{lookup, assign}
use infinitas_skill.Install.Lookup.{str_ne, str_differ}
use infinitas_skill.Install.Plan.{elem}
use infinitas_skill.Install.Visit.{IsDistinct}
use infinitas_skill.Install.Lookup.{str_differ, str_ne}

pub differ_sym : (s t : String) → str_eq s t ≡ false → str_eq t s ≡ false
differ_sym s t h = str_differ t s (λ e. str_ne s t h (sym e))

module _ {A : Type 0} where
  abbrev pub keys : List (String × A) → List String
  keys d = map (λ (p : String × A). p.0) d

  elem-assign :
      (x k : String) (a : A) (d : List (String × A))
      → elem x (keys (assign k a d)) ≡ (elem x (keys d) || str_eq k x)
  unfolding elem assign
  elem-assign x k a [] = ground arith
  elem-assign x k a ((i, b) ∷ d) = elim (Bool-cases (str_eq i k)) [
    | inl e ↦
        let same : str_eq i x ≡ str_eq k x = ap (λ j. str_eq j x) ((eq_iff i k).0 e) in
        ground (arith, e, same)
    | inr e ↦ ground (arith, e, elem-assign x k a d)
  ]

  pub assign-IsDistinct :
      (k : String) (a : A) (d : List (String × A))
      → IsDistinct (keys d)
      → IsDistinct (keys (assign k a d))
  unfolding assign elem
  assign-IsDistinct k a [] h = (refl, tt)
  assign-IsDistinct k a ((i, b) ∷ d) h = elim (Bool-cases (str_eq i k)) [
    | inl e ↦ rw e h
    | inr e ↦
        rw e (elem-assign i k a d ∙ rw (h.0, differ_sym i k e) refl, assign-IsDistinct k a d h.1)
  ]

  elem-insert_by :
      (x : String) (cmp : String × A → String × A → Ordering) (p : String × A)
      (d : List (String × A))
      → elem x (keys (insert_by cmp p d)) ≡ (str_eq p.0 x || elem x (keys d))
  unfolding insert_by elem
  elem-insert_by x cmp p [] = refl
  elem-insert_by x cmp p (q ∷ d) = elim (Bool-cases (in_front (cmp p q))) [
    | inl e ↦ rw e refl
    | inr e ↦ rw e (ground (arith, elem-insert_by x cmp p d))
  ]

  insert_by-IsDistinct :
      (cmp : String × A → String × A → Ordering) (p : String × A) (d : List (String × A))
      → elem p.0 (keys d) ≡ false
      → IsDistinct (keys d)
      → IsDistinct (keys (insert_by cmp p d))
  unfolding insert_by elem
  insert_by-IsDistinct cmp p [] n h = (refl, tt)
  insert_by-IsDistinct cmp p (q ∷ d) n h = elim (Bool-cases (in_front (cmp p q))) [
    | inl e ↦ rw e (n, h)
    | inr e ↦
        let apart : str_eq q.0 p.0 ≡ false = ground arith in
        let other : elem p.0 (keys d) ≡ false = ground arith in
        rw e (
          elem-insert_by q.0 cmp p d ∙ rw (h.0, differ_sym q.0 p.0 apart) refl,
          insert_by-IsDistinct cmp p d other h.1,
        )
  ]

  pub elem-sort_by :
      (x : String) (cmp : String × A → String × A → Ordering) (d : List (String × A))
      → elem x (keys (sort_by cmp d)) ≡ elem x (keys d)
  unfolding sort_by elem
  elem-sort_by x cmp [] = refl
  elem-sort_by x cmp (p ∷ d) =
      elem-insert_by x cmp p (sort_by cmp d) ∙ ap (λ b. str_eq p.0 x || b) (elem-sort_by x cmp d)

  pub sort_by-IsDistinct :
      (cmp : String × A → String × A → Ordering) (d : List (String × A))
      → IsDistinct (keys d)
      → IsDistinct (keys (sort_by cmp d))
  unfolding sort_by elem
  sort_by-IsDistinct cmp [] h = tt
  sort_by-IsDistinct cmp (p ∷ d) h =
      insert_by-IsDistinct cmp p (sort_by cmp d) (elem-sort_by p.0 cmp d ∙ h.0)
        (sort_by-IsDistinct cmp d h.1)

  elem-select :
      (x : String) (f : String × A → Bool) (d : List (String × A))
      → elem x (keys d) ≡ false
      → elem x (keys (select f d)) ≡ false
  unfolding elem
  elem-select x f [] h = refl
  elem-select x f (p ∷ d) h = let rest = elem-select x f d (ground arith) in ground (arith, rest)

  pub select-IsDistinct :
      (f : String × A → Bool) (d : List (String × A))
      → IsDistinct (keys d)
      → IsDistinct (keys (select f d))
  unfolding elem
  select-IsDistinct f [] h = tt
  select-IsDistinct f (p ∷ d) h = elim (Bool-cases (f p)) [
    | inl e ↦ rw e (elem-select p.0 f d h.0, select-IsDistinct f d h.1)
    | inr e ↦ rw e (select-IsDistinct f d h.1)
  ]

lookup-insert_by :
    {A : Type 0} (x : String) (cmp : String × A → String × A → Ordering) (p : String × A)
    (d : List (String × A))
    → elem p.0 (keys d) ≡ false
    → lookup x (insert_by cmp p d) ≡ (if str_eq p.0 x then some p.1 else lookup x d)
unfolding insert_by elem lookup
lookup-insert_by x cmp p [] n = refl
lookup-insert_by x cmp p (q ∷ d) n = elim (Bool-cases (in_front (cmp p q))) [
  | inl e ↦ rw e refl
  | inr e ↦
      let other : elem p.0 (keys d) ≡ false = ground arith in
      let rest = lookup-insert_by x cmp p d other in
      elim (Bool-cases (str_eq q.0 x)) [
        | inr f ↦ rw (e, f) rest
        | inl f ↦
            let apart : str_eq q.0 p.0 ≡ false = ground arith in
            let away : str_eq p.0 x ≡ false =
              str_differ p.0 x (λ k. str_ne q.0 p.0 apart ((eq_iff q.0 x).0 f ∙ sym k)) in
            rw (e, f, away) refl
      ]
]

pub lookup-sort_by :
    {A : Type 0} (x : String) (cmp : String × A → String × A → Ordering) (d : List (String × A))
    → IsDistinct (keys d)
    → lookup x (sort_by cmp d) ≡ lookup x d
unfolding sort_by lookup
lookup-sort_by x cmp [] h = refl
lookup-sort_by x cmp (p ∷ d) h =
    lookup-insert_by x cmp p (sort_by cmp d) (elem-sort_by p.0 cmp d ∙ h.0)
    ∙ ap (λ o. if str_eq p.0 x then some p.1 else o) (lookup-sort_by x cmp d h.1)
