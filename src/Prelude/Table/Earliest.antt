-- ===== src/Prelude/Table/Earliest.antt =====
-- The query for the oldest row that passes a test.
use Prim.Native.Nat.{◌≤◌}
use mathlib.Core.Path.{◌≡◌, refl, subst}
use mathlib.Core.Logic.{inl, inr}
use mathlib.Core.Bool.{Bool, true, false}
use mathlib.Core.Option.{none, some}
use mathlib.Core.List.{List, [], ◌∷◌}
use native.Mathlib.Omega.{arith}
use infinitas_skill.Prelude.Tests.{ltb, ◌==◌, Bool-cases, Option-cases, ==-refl}
use infinitas_skill.Prelude.Lists.{any, All, All-mono}
use infinitas_skill.Prelude.Table.{Row, get, earliest}
use infinitas_skill.Prelude.Table.Keys.{HasKeys, has_key, ne_of_any}

module _ {ℓ} {A : Type ℓ} ⦃r : Row A⦄ where
  -- A row that the query finds passes any test that holds of it.
  pub any_of_earliest :
      (p q : A → Bool) (t : List A) (a : A) → earliest p t ≡ some a → q a ≡ true → any q t ≡ true
  unfolding earliest
  any_of_earliest p q [] a h k = cc
  any_of_earliest p q (b ∷ t) a h k = elim (Bool-cases (p b)) [
    | inl e ↦ elim (Option-cases (earliest p t)) [
      | inl n ↦ ground arith
      | inr (c, n) ↦ elim (Bool-cases (ltb (r.key c) (r.key b))) [
        | inl l ↦ ground (arith, any_of_earliest p q t a)
        | inr l ↦ ground arith
      ]
    ]
    | inr e ↦ ground (arith, any_of_earliest p q t a)
  ]

  -- A query without an answer: no row passes its test.
  pub earliest-none : (p : A → Bool) (t : List A) → earliest p t ≡ none → any p t ≡ false
  unfolding earliest
  earliest-none p [] h = refl
  earliest-none p (b ∷ t) h = ground (arith, earliest-none p t)

  earliest_ne :
      (p : A → Bool) (b : A) (t : List A) (a : A)
      → HasKeys (b ∷ t)
      → earliest p t ≡ some a
      → (r.key b == r.key a) ≡ false
  earliest_ne p b t a h e =
      ne_of_any (r.key b) (r.key a) t h.0
        (any_of_earliest p (has_key (r.key a)) t a e (==-refl (r.key a)))

  -- Where keys are distinct, the row that the query finds is the row of its key.
  pub earliest-get :
      (p : A → Bool) (t : List A) (a : A)
      → HasKeys t
      → earliest p t ≡ some a
      → get (r.key a) t ≡ some a
  unfolding earliest get
  earliest-get p [] a h e = cc
  earliest-get p (b ∷ t) a h e = elim (Bool-cases (p b)) [
    | inl q ↦ elim (Option-cases (earliest p t)) [
      | inl n ↦ ground (arith, ==-refl (r.key b))
      | inr (c, n) ↦ elim (Bool-cases (ltb (r.key c) (r.key b))) [
        | inl l ↦ ground (arith, earliest_ne p b t c h n, earliest-get p t c h.1 n)
        | inr l ↦ ground (arith, ==-refl (r.key b))
      ]
    ]
    | inr q ↦
        let n : earliest p t ≡ some a = ground arith in
        ground (arith, earliest_ne p b t a h n, earliest-get p t a h.1 n)
  ]

  pub earliest-test : (p : A → Bool) (t : List A) (a : A) → earliest p t ≡ some a → p a ≡ true
  unfolding earliest
  earliest-test p [] a h = cc
  earliest-test p (b ∷ t) a h = elim (Bool-cases (p b)) [
    | inl e ↦ elim (Option-cases (earliest p t)) [
      | inl n ↦ ground arith
      | inr (c, n) ↦ ground (arith, earliest-test p t c)
    ]
    | inr e ↦ ground (arith, earliest-test p t a)
  ]

  -- The row that the query finds is no younger than any other that passes the test.
  abbrev pub NotAfter : (A → Bool) → A → A → Type 0
  NotAfter p a b = p b ≡ true → r.key a ≤ r.key b

  none_before : (p : A → Bool) (a : A) (t : List A) → any p t ≡ false → All (NotAfter p a) t
  none_before p a [] h = tt
  none_before p a (b ∷ t) h = (λ q. ground arith, none_before p a t (ground arith))

  pub earliest-least :
      (p : A → Bool) (t : List A) (a : A) → earliest p t ≡ some a → All (NotAfter p a) t
  unfolding earliest
  earliest-least p [] a h = tt
  earliest-least p (b ∷ t) a h = elim (Bool-cases (p b)) [
    | inl e ↦ elim (Option-cases (earliest p t)) [
      | inl n ↦
          let same : b ≡ a = ground arith in
          (
            λ _. subst (λ (x : A). r.key x ≤ r.key b) same (omega arith),
            none_before p a t (earliest-none p t n),
          )
      | inr (c, n) ↦ elim (Bool-cases (ltb (r.key c) (r.key b))) [
        | inl l ↦
            let same : c ≡ a = ground arith in
            subst (λ (x : A). All (NotAfter p x) (b ∷ t)) same
              (λ _. ground arith, earliest-least p t c n)
        | inr l ↦
            let same : b ≡ a = ground arith in
            subst (λ (x : A). All (NotAfter p x) (b ∷ t)) same
              (
                λ _. omega arith,
                All-mono (NotAfter p c) (NotAfter p b) t (λ x k q. ground (arith, k q))
                    (earliest-least p t c n),
              )
      ]
    ]
    | inr e ↦ (λ q. absurd (cc (e, q)), earliest-least p t a (ground arith))
  ]
