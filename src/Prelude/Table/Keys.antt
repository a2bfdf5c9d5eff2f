-- ===== src/Prelude/Table/Keys.antt =====
-- Tables whose keys are distinct: what an update or an insertion does to the rows.
use Prim.Native.Nat.{ℕ, ◌≤◌}
use mathlib.Core.Path.{◌≡◌, refl}
use mathlib.Core.Logic.{inl, inr}
use mathlib.Core.Bool.{Bool, true, false}
use mathlib.Core.Option.{none, some}
use mathlib.Core.List.{List, [], ◌∷◌}
use native.Mathlib.Omega.{arith}
use infinitas_skill.Prelude.Tests.{ltb, ◌==◌, Bool-cases, Option-cases, ==-refl}
use infinitas_skill.Prelude.Lists.{any}
use infinitas_skill.Prelude.Table.{Row, get, put, latest, next_id, any_of_latest}

module _ {ℓ} {A : Type ℓ} ⦃r : Row A⦄ where
  abbrev pub has_key : ℕ → A → Bool
  has_key k b = r.key b == k

  -- The primary keys are distinct.
  abbrev pub HasKeys : List A → Type 0
  HasKeys [] = Unit
  HasKeys (a ∷ t) = (any (has_key (r.key a)) t ≡ false) × HasKeys t

  any_key-put : (k : ℕ) (a : A) (t : List A) → any (has_key k) (put a t) ≡ any (has_key k) t
  unfolding put
  any_key-put k a [] = refl
  any_key-put k a (b ∷ t) = ground (arith, any_key-put k a t)

  pub put-HasKeys : (a : A) (t : List A) → HasKeys t → HasKeys (put a t)
  unfolding put
  put-HasKeys a [] h = tt
  put-HasKeys a (b ∷ t) h =
      (ground (arith, any_key-put (r.key b) a t, any_key-put (r.key a) a t), put-HasKeys a t h.1)

  lt-next_id : (k : ℕ) (t : List A) → next_id t ≤ k → any (has_key k) t ≡ false
  unfolding next_id
  lt-next_id k [] h = refl
  lt-next_id k (a ∷ t) h = ground (arith, lt-next_id k t)

  pub next_id-HasKeys : (a : A) (t : List A) → r.key a ≡ next_id t → HasKeys t → HasKeys (a ∷ t)
  next_id-HasKeys a t e h = (lt-next_id (r.key a) t (omega arith), h)

  any_key-get : (k : ℕ) (t : List A) → any (has_key k) t ≡ false → get k t ≡ none
  unfolding get
  any_key-get k [] h = refl
  any_key-get k (b ∷ t) h = ground (arith, any_key-get k t)

  pub ne_of_any :
      (k j : ℕ) (t : List A)
      → any (has_key k) t ≡ false
      → any (has_key j) t ≡ true
      → (k == j) ≡ false
  ne_of_any k j [] h q = cc
  ne_of_any k j (b ∷ t) h q = elim (Bool-cases (r.key b == j)) [
    | inl e ↦ ground arith
    | inr e ↦ ne_of_any k j t (ground arith) (ground arith)
  ]

  latest_ne :
      (p : A → Bool) (b : A) (t : List A) (a : A)
      → HasKeys (b ∷ t)
      → latest p t ≡ some a
      → (r.key b == r.key a) ≡ false
  latest_ne p b t a h e =
      ne_of_any (r.key b) (r.key a) t h.0
        (any_of_latest p (has_key (r.key a)) t a e (==-refl (r.key a)))

  -- Where keys are distinct, the row that a query finds is the row of its key.
  pub latest-get :
      (p : A → Bool) (t : List A) (a : A)
      → HasKeys t
      → latest p t ≡ some a
      → get (r.key a) t ≡ some a
  unfolding latest get
  latest-get p [] a h e = cc
  latest-get p (b ∷ t) a h e = elim (Bool-cases (p b)) [
    | inl q ↦ elim (Option-cases (latest p t)) [
      | inl n ↦ ground (arith, ==-refl (r.key b))
      | inr (c, n) ↦ elim (Bool-cases (ltb (r.key b) (r.key c))) [
        | inl l ↦ ground (arith, latest_ne p b t c h n, latest-get p t c h.1 n)
        | inr l ↦ ground (arith, ==-refl (r.key b))
      ]
    ]
    | inr q ↦
        let n : latest p t ≡ some a = ground arith in
        ground (arith, latest_ne p b t a h n, latest-get p t a h.1 n)
  ]

  pub put_fresh : (a : A) (t : List A) → any (has_key (r.key a)) t ≡ false → put a t ≡ t
  unfolding put
  put_fresh a [] h = refl
  put_fresh a (b ∷ t) h = ground (arith, put_fresh a t)

  -- A test that held of some row still does after an update that keeps it.
  pub any-put :
      (p : A → Bool) (a b : A) (t : List A)
      → HasKeys t
      → get (r.key a) t ≡ some b
      → (p b ≡ true → p a ≡ true)
      → any p t ≡ true
      → any p (put a t) ≡ true
  unfolding put get
  any-put p a b [] h e k q = cc
  any-put p a b (c ∷ t) h e k q = elim (Bool-cases (r.key c == r.key a)) [
    | inl s ↦ rw (put_fresh a t (ground arith)) (ground arith)
    | inr s ↦ ground (arith, any-put p a b t)
  ]

  pub any-put_self :
      (p : A → Bool) (a b : A) (t : List A)
      → get (r.key a) t ≡ some b
      → p a ≡ true
      → any p (put a t) ≡ true
  unfolding put get
  any-put_self p a b [] e k = cc
  any-put_self p a b (c ∷ t) e k = ground (arith, any-put_self p a b t)
