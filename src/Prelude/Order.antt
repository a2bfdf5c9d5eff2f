-- ===== src/Prelude/Order.antt =====
-- Three-way comparisons, as Python's -1, 0 and 1, and the laws of a total order.
use Prim.Native.Nat.{compare, Ordering}
use mathlib.Core.Path.{◌≡◌, refl, sym}
use mathlib.Core.Logic.{◌⊎◌, inl, inr}
use mathlib.Core.List.{List, [], ◌∷◌}
use native.Mathlib.Omega.{arith}

abbrev pub flip : Ordering → Ordering
flip Ordering.lt = Ordering.gt
flip Ordering.eq = Ordering.eq
flip Ordering.gt = Ordering.lt

-- The first comparison, or the second where the first ties
infixr 40 ◌then◌
abbrev pub ◌then◌ : Ordering → Ordering → Ordering
Ordering.lt then p = Ordering.lt
Ordering.eq then p = p
Ordering.gt then p = Ordering.gt

pub Ordering-cases : (o : Ordering) → (o ≡ Ordering.lt) ⊎ ((o ≡ Ordering.eq) ⊎ (o ≡ Ordering.gt))
Ordering-cases Ordering.lt = inl refl
Ordering-cases Ordering.eq = inr (inl refl)
Ordering-cases Ordering.gt = inr (inr refl)

pub record IsTotalOrder {ℓ} {A : Type ℓ} (cmp : A → A → Ordering) : Type ℓ where
  pub flips : (a b : A) → cmp b a ≡ flip (cmp a b)
  pub ties : (a b : A) → cmp a b ≡ Ordering.eq → a ≡ b
  pub chains : (a b c : A) → cmp a b ≡ Ordering.lt → cmp b c ≡ Ordering.lt → cmp a c ≡ Ordering.lt

pub compare-IsTotalOrder : IsTotalOrder compare
compare-IsTotalOrder = record {
  flips = λ a b. ground arith;
  ties = λ a b h. ground arith;
  chains = λ a b c h k. ground arith;
}

-- Comparison item by item, a proper prefix being less
unfoldable pub compare_list {ℓ} : {A : Type ℓ} → (A → A → Ordering) → List A → List A → Ordering
compare_list cmp [] [] = Ordering.eq
compare_list cmp [] (y ∷ r) = Ordering.lt
compare_list cmp (x ∷ l) [] = Ordering.gt
compare_list cmp (x ∷ l) (y ∷ r) = cmp x y then compare_list cmp l r

pub flip_then : (o p : Ordering) → flip (o then p) ≡ flip o then flip p
flip_then Ordering.lt p = refl
flip_then Ordering.eq p = refl
flip_then Ordering.gt p = refl

pub then-eq : (o p : Ordering) → o then p ≡ Ordering.eq → (o ≡ Ordering.eq) × (p ≡ Ordering.eq)
then-eq Ordering.lt p h = absurd (cc h)
then-eq Ordering.eq p h = (refl, h)
then-eq Ordering.gt p h = absurd (cc h)

module _ {ℓ} {A : Type ℓ} (cmp : A → A → Ordering) (o : IsTotalOrder cmp) where
  pub cmp_self : (a : A) → cmp a a ≡ Ordering.eq
  cmp_self a = elim (Ordering-cases (cmp a a)) [
    | inl h ↦ absurd (cc (h, o.flips a a))
    | inr (inl h) ↦ h
    | inr (inr h) ↦ absurd (cc (h, o.flips a a))
  ]

  list-flips : (l r : List A) → compare_list cmp r l ≡ flip (compare_list cmp l r)
  unfolding compare_list
  list-flips [] [] = refl
  list-flips [] (y ∷ r) = refl
  list-flips (x ∷ l) [] = refl
  list-flips (x ∷ l) (y ∷ r) =
      rw (o.flips x y, list-flips l r) (sym (flip_then (cmp x y) (compare_list cmp l r)))

  list-ties : (l r : List A) → compare_list cmp l r ≡ Ordering.eq → l ≡ r
  unfolding compare_list
  list-ties [] [] h = refl
  list-ties [] (y ∷ r) h = absurd (cc h)
  list-ties (x ∷ l) [] h = absurd (cc h)
  list-ties (x ∷ l) (y ∷ r) h =
      let (e, e') = then-eq (cmp x y) (compare_list cmp l r) h in
      cc (o.ties x y e, list-ties l r e')

  -- A lexicographic step: the heads decide, or they are equal and the tails do.
  then-chains :
      (a b c : A) (p q r : Ordering)
      → cmp a b then p ≡ Ordering.lt
      → cmp b c then q ≡ Ordering.lt
      → (p ≡ Ordering.lt → q ≡ Ordering.lt → r ≡ Ordering.lt)
      → cmp a c then r ≡ Ordering.lt
  then-chains a b c p q r h k next = elim (Ordering-cases (cmp a b)) [
    | inl e ↦ elim (Ordering-cases (cmp b c)) [
      | inl e' ↦ rw (o.chains a b c e e') refl
      | inr (inl e') ↦ rw (sym (o.ties b c e'), e) refl
      | inr (inr e') ↦ absurd (ground (arith, k))
    ]
    | inr (inl e) ↦ elim (Ordering-cases (cmp b c)) [
      | inl e' ↦ rw (o.ties a b e, e') refl
      | inr (inl e') ↦ rw (o.ties a b e, e') (next (ground (arith, h)) (ground (arith, k)))
      | inr (inr e') ↦ absurd (ground (arith, k))
    ]
    | inr (inr e) ↦ absurd (ground (arith, h))
  ]

  list-chains :
      (l m r : List A)
      → compare_list cmp l m ≡ Ordering.lt
      → compare_list cmp m r ≡ Ordering.lt
      → compare_list cmp l r ≡ Ordering.lt
  unfolding compare_list
  list-chains [] [] r h k = absurd (cc h)
  list-chains [] (y ∷ m) [] h k = absurd (cc k)
  list-chains [] (y ∷ m) (z ∷ r) h k = refl
  list-chains (x ∷ l) [] r h k = absurd (cc h)
  list-chains (x ∷ l) (y ∷ m) [] h k = absurd (cc k)
  list-chains (x ∷ l) (y ∷ m) (z ∷ r) h k =
      then-chains x y z (compare_list cmp l m) (compare_list cmp m r) (compare_list cmp l r) h k
        (list-chains l m r)

  pub compare_list-IsTotalOrder : IsTotalOrder (compare_list cmp)
  compare_list-IsTotalOrder = record { flips = list-flips; ties = list-ties; chains = list-chains }

-- The product order, first components first
module _ {ℓ ℓ'} {A : Type ℓ} {B : Type ℓ'} (cmp : A → A → Ordering) (o : IsTotalOrder cmp) where
  pub product-IsTotalOrder :
      (cmp' : B → B → Ordering)
      → IsTotalOrder cmp'
      → IsTotalOrder {A = A × B} (λ a b. cmp a.0 b.0 then cmp' a.1 b.1)
  product-IsTotalOrder cmp' o' = record {
    flips = λ a b.
        rw (o.flips a.0 b.0, o'.flips a.1 b.1) (sym (flip_then (cmp a.0 b.0) (cmp' a.1 b.1)));
    ties = λ a b h.
        let (e, e') = then-eq (cmp a.0 b.0) (cmp' a.1 b.1) h in
        cc (o.ties a.0 b.0 e, o'.ties a.1 b.1 e');
    chains = λ a b c h k.
        then-chains cmp o a.0 b.0 c.0 (cmp' a.1 b.1) (cmp' b.1 c.1) (cmp' a.1 c.1) h k
          (o'.chains a.1 b.1 c.1);
  }

  pub pullback-IsTotalOrder :
      (f : B → A) → ((x y : B) → f x ≡ f y → x ≡ y) → IsTotalOrder (λ x y. cmp (f x) (f y))
  pullback-IsTotalOrder f inj = record {
    flips = λ x y. o.flips (f x) (f y);
    ties = λ x y h. inj x y (o.ties (f x) (f y) h);
    chains = λ x y z. o.chains (f x) (f y) (f z);
  }
