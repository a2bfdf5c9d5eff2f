-- ===== src/Prelude/Result.antt =====
-- Exceptions of the services: a request that raises is rolled back by its session (server/db.py),
-- so the state of the database is returned beside a result only.
use Prim.Native.String.{String}
use mathlib.Core.Path.{◌≡◌, refl, subst}
use mathlib.Core.Bool.{Bool, true, false}
use mathlib.Core.Option.{Option, none, some}
use infinitas_skill.Prelude.Tests.{if◌then◌else◌}

-- server/exceptions_base.py, and `ValueError` and `RuntimeError`
pub data Error : Type 0 where
  not_found forbidden conflict value_error runtime_error : String → Error

pub data Result {ℓ} (A : Type ℓ) : Type ℓ where
  ok : A → Result A
  err : Error → Result A

-- `if not test: raise e`
abbrev pub ensure : Bool → Error → Result (Unit {0})
ensure test e = if test then ok tt else err e

module _ {ℓ κ} {A : Type ℓ} {B : Type κ} where
  infixl 5 ◌>>=◌ ◌>>◌
  unfoldable pub ◌>>=◌ : Result A → (A → Result B) → Result B
  ◌>>=◌ r next = elim r [ err e ↦ err e | ok a ↦ next a ]

  abbrev pub ◌>>◌ : Result A → Result B → Result B
  ◌>>◌ r next = r >>= λ _. next

-- `if x is None: raise e`
abbrev pub require {ℓ} : {A : Type ℓ} → Option A → Error → Result A
require none e = err e
require (some a) e = ok a

pub require-eq-ok {ℓ} :
    {A : Type ℓ} (o : Option A) (e : Error) {a : A} → require o e ≡ ok a → o ≡ some a
require-eq-ok none e h = cc
require-eq-ok (some x) e h = cc

-- What holds of a result whenever there is one
pub record Ensures {ℓ κ} {A : Type ℓ} (P : A → Type κ) (r : Result A) : Type (ℓ ⊔ κ) where
  pub at : (a : A) → r ≡ ok a → P a

pub ok-injective {ℓ} : {A : Type ℓ} {a b : A} → ok a ≡ ok b → a ≡ b
ok-injective e = cc

module _ {ℓ κ} {A : Type ℓ} {P : A → Type κ} where
  pub Ensures-ok : (a : A) → P a → Ensures P (ok a)
  Ensures-ok a p = record { at = λ b e. subst P (ok-injective e) p }

  pub Ensures-err : (e : Error) → Ensures P (err e)
  Ensures-err e = record { at = λ b q. cc }

  pub Ensures-if :
      (b : Bool) (m n : Result A)
      → (b ≡ true → Ensures P m)
      → (b ≡ false → Ensures P n)
      → Ensures P (if b then m else n)
  Ensures-if true m n f g = f refl
  Ensures-if false m n f g = g refl

module _ {ℓ κ μ} {A : Type ℓ} {B : Type κ} {P : B → Type μ} where
  pub Ensures-bind :
      (m : Result A) (f : A → Result B)
      → ((a : A) → m ≡ ok a → Ensures P (f a))
      → Ensures P (m >>= f)
  unfolding ◌>>=◌
  Ensures-bind (ok a) f k = k a refl
  Ensures-bind (err e) f k = record { at = λ b q. cc }

module _ {ℓ κ} {A : Type ℓ} {P : A → Type κ} where
  -- What follows a ensure may use its test.
  pub Ensures-guard :
      (b : Bool) (e : Error) (m : Result A) → (b ≡ true → Ensures P m) → Ensures P (ensure b e >> m)
  unfolding ◌>>=◌
  Ensures-guard true e m k = k refl
  Ensures-guard false e m k = Ensures-err e

module _ {ℓ κ μ} {A : Type ℓ} {B : Type κ} {P : B → Type μ} where
  -- What follows a look-up may use what it found.
  pub Ensures-require :
      (o : Option A) (e : Error) (f : A → Result B)
      → ((a : A) → o ≡ some a → Ensures P (f a))
      → Ensures P (require o e >>= f)
  unfolding ◌>>=◌
  Ensures-require none e f k = Ensures-err e
  Ensures-require (some a) e f k = k a refl

-- Total correctness: there is a result, and `P` holds of it.
abbrev pub Returns {ℓ} : {A : Type ℓ} → (A → Type 0) → Result A → Type 0
Returns P (ok a) = P a
Returns P (err e) = ⊥
