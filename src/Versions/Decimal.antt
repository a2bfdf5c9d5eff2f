-- ===== src/Versions/Decimal.antt =====
-- The decimal form of a number, as f-strings write it, and reading it back.
use infinitas_skill.Prelude.{
  ℕ, zero, suc, ◌+◌, ◌/◌, ◌%◌, ◌<◌, Bool, true, false, some, [], ◌∷◌, ◌++◌, ◌≡◌, refl, not, ◌&&◌,
  ◌==◌, ltb, if◌then◌else◌, all, arith, Bool-cases, inl, inr, ◌∙◌, subst, ap,
}
use infinitas_skill.Prelude.Text.{Text, codes, is_digit}
use infinitas_skill.Versions.Semver.{digits_value, span, is_numeral, read_numeral}

-- The digits of `n` before those of `later`
digits_before : ℕ → ℕ → Text → Text
digits_before zero n later = later
digits_before (suc fuel) n later =
    let rest = digits_before fuel (n / 10) ((b'0' + n % 10) ∷ later) in
    if ltb n 10 then (b'0' + n) ∷ later else rest

-- `str(n)`
unfoldable pub decimal : ℕ → Text
unfolding digits_before
decimal n = digits_before (suc n) n []

decimal_example : decimal 1207 ≡ codes "1207"
unfolding decimal
decimal_example = refl

value-digits_before :
    (fuel n : ℕ) (later : Text)
    → n < fuel
    → digits_value 0 (digits_before fuel n later) ≡ digits_value n later
unfolding digits_before digits_value
value-digits_before zero n later h = absurd (omega arith)
value-digits_before (suc fuel) n later h = elim (Bool-cases (ltb n 10)) [
  | inl e ↦ rw e (ap (λ m. digits_value m later) (omega arith))
  | inr e ↦ rw e (
      value-digits_before fuel (n / 10) ((b'0' + n % 10) ∷ later) (ground arith)
      ∙ ap (λ m. digits_value m later) (omega arith))
]

all-digits_before :
    (fuel n : ℕ) (later : Text)
    → all is_digit later ≡ true
    → all is_digit (digits_before fuel n later) ≡ true
unfolding digits_before is_digit
all-digits_before zero n later h = h
all-digits_before (suc fuel) n later h = elim (Bool-cases (ltb n 10)) [
  | inl e ↦ rw e (ground arith)
  | inr e ↦ rw e (all-digits_before fuel (n / 10) ((b'0' + n % 10) ∷ later) (ground arith))
]

-- A text that starts with a digit other than 0
leads : Text → Bool
leads [] = false
leads (c ∷ s) = not (c == b'0')

leads-digits_before :
    (fuel n : ℕ) (later : Text) → 0 < n → n < fuel → leads (digits_before fuel n later) ≡ true
unfolding digits_before leads
leads-digits_before zero n later l h = absurd (omega arith)
leads-digits_before (suc fuel) n later l h = elim (Bool-cases (ltb n 10)) [
  | inl e ↦ rw e (ground arith)
  | inr e ↦
      rw e
        (leads-digits_before fuel (n / 10) ((b'0' + n % 10) ∷ later) (ground arith) (ground arith))
]

numeral_of_leads : (s : Text) → leads s ≡ true → is_numeral s ≡ true
unfolding leads is_numeral
numeral_of_leads [] h = absurd (cc h)
numeral_of_leads (c ∷ []) h = refl
numeral_of_leads (c ∷ d ∷ s) h = h

decimal-numeral : (n : ℕ) → is_numeral (decimal n) ≡ true
unfolding decimal is_numeral
decimal-numeral zero = refl
decimal-numeral (suc n) =
    numeral_of_leads _ (leads-digits_before (suc (suc n)) (suc n) [] (omega arith) (omega arith))

-- A text that does not go on with a digit
unfoldable pub stops : Text → Bool
unfolding is_digit
stops [] = true
stops (c ∷ s) = not (is_digit c)

span-all :
    (s rest : Text)
    → all is_digit s ≡ true
    → stops rest ≡ true
    → span is_digit (s ++ rest) ≡ (s, rest)
unfolding span stops
span-all [] [] h k = refl
span-all [] (c ∷ rest) h k = elim (Bool-cases (is_digit c)) [
  | inl e ↦ absurd (cc (ap not e, k))
  | inr e ↦ rw e refl
]
span-all (c ∷ s) rest h k = elim (Bool-cases (is_digit c)) [
  | inl e ↦ rw (e, span-all s rest (subst (λ b. (b && all is_digit s) ≡ true) e h) k) refl
  | inr e ↦ absurd (cc (subst (λ b. (b && all is_digit s) ≡ true) e h))
]

all-decimal : (n : ℕ) → all is_digit (decimal n) ≡ true
unfolding decimal
all-decimal n = all-digits_before (suc n) n [] refl

value-decimal : (n : ℕ) → digits_value 0 (decimal n) ≡ n
unfolding decimal digits_value
value-decimal n = value-digits_before (suc n) n [] (omega arith)

-- Reading a number that was written gives the number back.
pub read_numeral-decimal :
    (n : ℕ) (rest : Text) → stops rest ≡ true → read_numeral (decimal n ++ rest) ≡ some (n, rest)
unfolding read_numeral
read_numeral-decimal n rest h =
    let s = span-all (decimal n) rest (all-decimal n) h in
    rw (s, decimal-numeral n) (cc (value-decimal n))
