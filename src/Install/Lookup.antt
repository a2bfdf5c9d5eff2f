-- ===== src/Install/Lookup.antt =====
-- Lemmas on dicts and on the lists of the search.
use infinitas_skill.Prelude.{
  String, Bool, true, false, some, List, [], ◌∷◌, ◌++◌, ◌≡◌, ◌≢◌, refl, sym, subst, ◌∙◌, str_eq,
  eq_iff, not, select, All, Bool-cases, inl, inr, arith, map,
}
use infinitas_skill.Install.Model.{Dict, lookup, assign}

pub str_ne : (s t : String) → str_eq s t ≡ false → s ≢ t
str_ne s t h e = absurd (cc ((eq_iff s t).1 e, h))

pub str_differ : (s t : String) → s ≢ t → str_eq s t ≡ false
str_differ s t h = elim (Bool-cases (str_eq s t)) [
  | inl e ↦ absurd (h ((eq_iff s t).0 e))
  | inr e ↦ e
]

module _ {A : Type 0} where
  pub lookup-assign_self : (k : String) (a : A) (d : Dict A) → lookup k (assign k a d) ≡ some a
  unfolding lookup assign
  lookup-assign_self k a [] = rw ((eq_iff k k).1 refl) refl
  lookup-assign_self k a ((i, b) ∷ d) = elim (Bool-cases (str_eq i k)) [
    | inl e ↦ rw e (rw e refl)
    | inr e ↦ rw e (rw e (lookup-assign_self k a d))
  ]

  pub lookup-assign_ne :
      (k j : String) (a : A) (d : Dict A) → j ≢ k → lookup j (assign k a d) ≡ lookup j d
  unfolding lookup assign
  lookup-assign_ne k j a [] n = rw (str_differ k j (λ e. n (sym e))) refl
  lookup-assign_ne k j a ((i, b) ∷ d) n = elim (Bool-cases (str_eq i k)) [
    | inl e ↦ let f = str_differ i j (λ q. n (sym q ∙ (eq_iff i k).0 e)) in rw e (rw f refl)
    | inr e ↦ elim (Bool-cases (str_eq i j)) [
      | inl f ↦ rw e (rw f refl)
      | inr f ↦ rw e (rw f (lookup-assign_ne k j a d n))
    ]
  ]

  -- What holds of all values holds of the one that is found.
  pub lookup-All {κ} :
      (P : A → Type κ) (k : String) (d : Dict A) (a : A)
      → All (λ p. P p.1) d
      → lookup k d ≡ some a
      → P a
  unfolding lookup
  lookup-All P k [] a h e = absurd (cc e)
  lookup-All P k ((i, b) ∷ d) a h e = elim (Bool-cases (str_eq i k)) [
    | inl f ↦ subst P (ground (arith, e, f)) h.0
    | inr f ↦ lookup-All P k d a h.1 (ground (arith, e, f))
  ]

module _ {A : Type 0} (P : A → Type 0) (f : A → Bool) where
  pub All-select : (l : List A) → All P l → All P (select f l)
  All-select [] h = tt
  All-select (x ∷ l) h = elim (Bool-cases (f x)) [
    | inl e ↦ rw e (h.0, All-select l h.1)
    | inr e ↦ rw e (All-select l h.1)
  ]

  -- A list is what passes a test and what does not.
  pub All-split : (l : List A) → All P (select f l) → All P (select (λ x. not (f x)) l) → All P l
  All-split [] h k = tt
  All-split (x ∷ l) h k = elim (Bool-cases (f x)) [
    | inl e ↦ let h' = rw e at h in let k' = rw e at k in (h'.0, All-split l h'.1 k')
    | inr e ↦ let h' = rw e at h in let k' = rw e at k in (k'.0, All-split l h' k'.1)
  ]

  pub select-All : (l : List A) → All (λ x. f x ≡ true) (select f l)
  select-All [] = tt
  select-All (x ∷ l) = elim (Bool-cases (f x)) [
    | inl e ↦ rw e (e, select-All l)
    | inr e ↦ rw e (select-All l)
  ]

module _ {A : Type 0} (P : A → Type 0) where
  pub append-All_left : (xs ys : List A) → All P (xs ++ ys) → All P xs
  append-All_left [] ys h = tt
  append-All_left (x ∷ xs) ys h = (h.0, append-All_left xs ys h.1)

  pub append-All_right : (xs ys : List A) → All P (xs ++ ys) → All P ys
  append-All_right [] ys h = h
  append-All_right (x ∷ xs) ys h = append-All_right xs ys h.1

  pub All-map : {B : Type 0} (g : B → A) (l : List B) → All (λ b. P (g b)) l → All P (map g l)
  All-map g [] h = tt
  All-map g (b ∷ l) h = (h.0, All-map g l h.1)

module _ {A : Type 0} (P Q : A → Type 0) where
  pub All-zip : (l : List A) → All P l → All Q l → All (λ x. P x × Q x) l
  All-zip [] h k = tt
  All-zip (x ∷ l) h k = ((h.0, k.0), All-zip l h.1 k.1)
