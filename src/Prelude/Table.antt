-- ===== src/Prelude/Table.antt =====
-- A table of rows with an integer primary key, and the queries that the services make of it.
pub mod Earliest
pub mod Keys
use Prim.Native.Nat.{ℕ, suc, max}
use mathlib.Core.Path.{◌≡◌, refl, subst}
use mathlib.Core.Logic.{◌≢◌, inl, inr}
use mathlib.Core.Bool.{Bool, true, false}
use mathlib.Core.Option.{Option, none, some}
use mathlib.Core.List.{List, [], ◌∷◌}
use native.Mathlib.Omega.{arith}
use infinitas_skill.Prelude.Tests.{ltb, ◌==◌, if◌then◌else◌, Bool-cases, Option-cases}
use infinitas_skill.Prelude.Lists.{any, All}

pub record Row {ℓ} (A : Type ℓ) : Type ℓ where
  pub key : A → ℕ

module _ {ℓ} {A : Type ℓ} ⦃r : Row A⦄ where
  -- `db.get(Model, id)`
  unfoldable pub get : ℕ → List A → Option A
  get i [] = none
  get i (a ∷ t) = if r.key a == i then some a else get i t

  -- `UPDATE ... WHERE id = a.id`, or the flush of a changed object
  unfoldable pub put : A → List A → List A
  put a [] = []
  put a (b ∷ t) = (if r.key b == r.key a then a else b) ∷ put a t

  -- SQLite gives a new row the largest key in use and one more.
  unfoldable pub next_id : List A → ℕ
  next_id [] = 1
  next_id (a ∷ t) = max (suc (r.key a)) (next_id t)

  newer : A → Option A → Option A
  newer a none = some a
  newer a (some b) = if ltb (r.key a) (r.key b) then some b else some a

  -- `SELECT ... WHERE p ORDER BY id DESC`, its first row
  unfoldable pub latest : (A → Bool) → List A → Option A
  unfolding newer
  latest p [] = none
  latest p (a ∷ t) = let rest = latest p t in if p a then newer a rest else rest

  older : A → Option A → Option A
  older a none = some a
  older a (some b) = if ltb (r.key b) (r.key a) then some b else some a

  -- `SELECT ... WHERE p ORDER BY id ASC LIMIT 1`
  unfoldable pub earliest : (A → Bool) → List A → Option A
  unfolding older
  earliest p [] = none
  earliest p (a ∷ t) = let rest = earliest p t in if p a then older a rest else rest

  pub get-key : (i : ℕ) (t : List A) (a : A) → get i t ≡ some a → r.key a ≡ i
  unfolding get
  get-key i [] a h = ground arith
  get-key i (b ∷ t) a h = ground (arith, get-key i t a)

  pub get-put_self :
      (a : A) (i : ℕ) (t : List A) (b : A)
      → r.key a ≡ i
      → get i t ≡ some b
      → get i (put a t) ≡ some a
  unfolding get put
  get-put_self a i [] b k h = ground arith
  get-put_self a i (c ∷ t) b k h = ground (arith, get-put_self a i t b)

  pub get-put_ne : (a : A) (i : ℕ) (t : List A) → r.key a ≢ i → get i (put a t) ≡ get i t
  unfolding get put
  get-put_ne a i [] h = refl
  get-put_ne a i (b ∷ t) h = ground (arith, get-put_ne a i t h)

  pub latest-test : (p : A → Bool) (t : List A) (a : A) → latest p t ≡ some a → p a ≡ true
  unfolding latest
  latest-test p [] a h = ground arith
  latest-test p (b ∷ t) a h = elim (Bool-cases (p b)) [
    | inl e ↦ elim (Option-cases (latest p t)) [
      | inl n ↦ ground arith
      | inr (c, n) ↦ ground (arith, latest-test p t c)
    ]
    | inr e ↦ ground (arith, latest-test p t a)
  ]

  -- A query without an answer: no row passes its test.
  pub latest-none : (p : A → Bool) (t : List A) → latest p t ≡ none → any p t ≡ false
  unfolding latest
  latest-none p [] h = refl
  latest-none p (b ∷ t) h = ground (arith, latest-none p t)

  pub latest-any : (p : A → Bool) (t : List A) (a : A) → latest p t ≡ some a → any p t ≡ true
  unfolding latest
  latest-any p [] a h = ground arith
  latest-any p (b ∷ t) a h = elim (Bool-cases (p b)) [
    | inl e ↦ ground arith
    | inr e ↦ ground (arith, latest-any p t a)
  ]

  -- A row that a query finds passes any test that holds of it.
  pub any_of_latest :
      (p q : A → Bool) (t : List A) (a : A) → latest p t ≡ some a → q a ≡ true → any q t ≡ true
  unfolding latest
  any_of_latest p q [] a h k = cc
  any_of_latest p q (b ∷ t) a h k = elim (Bool-cases (p b)) [
    | inl e ↦ elim (Option-cases (latest p t)) [
      | inl n ↦ ground arith
      | inr (c, n) ↦ elim (Bool-cases (ltb (r.key b) (r.key c))) [
        | inl l ↦ ground (arith, any_of_latest p q t a)
        | inr l ↦ ground arith
      ]
    ]
    | inr e ↦ ground (arith, any_of_latest p q t a)
  ]

module _ {ℓ κ} {A : Type ℓ} ⦃r : Row A⦄ (P : A → Type κ) where
  pub All-put : (a : A) (t : List A) → P a → All P t → All P (put a t)
  unfolding put
  All-put a [] pa h = tt
  All-put a (b ∷ t) pa h = elim (Bool-cases (r.key b == r.key a)) [
    | inl e ↦ rw e (pa, All-put a t pa h.1)
    | inr e ↦ rw e (h.0, All-put a t pa h.1)
  ]

  pub All-get : (i : ℕ) (t : List A) (a : A) → All P t → get i t ≡ some a → P a
  unfolding get
  All-get i [] a h e = cc
  All-get i (b ∷ t) a h e = elim (Bool-cases (r.key b == i)) [
    | inl q ↦ subst P (ground arith) h.0
    | inr q ↦ All-get i t a h.1 (rw q at e)
  ]

  pub All-latest : (p : A → Bool) (t : List A) (a : A) → All P t → latest p t ≡ some a → P a
  unfolding latest
  All-latest p [] a h e = cc
  All-latest p (b ∷ t) a h e = elim (Bool-cases (p b)) [
    | inl q ↦ elim (Option-cases (latest p t)) [
      | inl n ↦ subst P (ground arith) h.0
      | inr (c, n) ↦ elim (Bool-cases (ltb (r.key b) (r.key c))) [
        | inl l ↦ subst P (ground arith) (All-latest p t c h.1 n)
        | inr l ↦ subst P (ground arith) h.0
      ]
    ]
    | inr q ↦ All-latest p t a h.1 (ground arith)
  ]
