-- ===== src/Prelude/Text.antt =====
-- Texts as lists of code points, and Python's `str` methods that the program uses.
use Prim.Native.Nat.{ℕ, zero, suc, ◌+◌, ◌-◌, ◌*◌}
use Prim.Native.Char.{code}
use Prim.Native.String.{String}
use mathlib.Core.Path.{◌≡◌, refl}
use mathlib.Core.Logic.{◌↔◌}
use mathlib.Core.Bool.{Bool, true, false, ◌&&◌, ◌||◌}
use mathlib.Core.Option.{Option, none, some}
use mathlib.Core.Option
use mathlib.Core.List.{List, [], ◌∷◌, map, reverse}
use native.Mathlib.Omega.{arith}
use infinitas_skill.Prelude.Tests.{leb, ◌==◌, if◌then◌else◌}

abbrev pub Text : Type 0
Text = List ℕ

-- The code points of a literal.
abbrev pub codes : String → Text
codes String.[] = []
codes (String.◌∷◌ c s) = code c ∷ codes s

abbrev pub text_beq : Text → Text → Bool
text_beq [] [] = true
text_beq [] (y ∷ ys) = false
text_beq (x ∷ xs) [] = false
text_beq (x ∷ xs) (y ∷ ys) = x == y && text_beq xs ys

pub text_beq_iff : (s t : Text) → (text_beq s t ≡ true) ↔ (s ≡ t)
text_beq_iff [] [] = ground arith
text_beq_iff [] (y ∷ ys) = ground arith
text_beq_iff (x ∷ xs) [] = ground arith
text_beq_iff (x ∷ xs) (y ∷ ys) = ground (arith, text_beq_iff xs ys)

-- `str.isspace` on ASCII: tab to carriage return, the four separators, and the space.
unfoldable pub is_space : ℕ → Bool
is_space c = (leb 9 c && leb c 13) || (leb 28 c && leb c 32)

unfoldable pub lstrip : Text → Text
unfolding is_space
lstrip [] = []
lstrip (c ∷ s) = let rest = lstrip s in if is_space c then rest else c ∷ s

unfoldable pub rstrip : Text → Text
unfolding lstrip
rstrip s = reverse (lstrip (reverse s))

-- `str.strip`
unfoldable pub strip : Text → Text
unfolding lstrip rstrip
strip s = rstrip (lstrip s)

-- The ASCII letters, the Kelvin sign and the dotted capital I (whose second code point is dropped)
-- are the characters whose lower case holds an ASCII letter.
unfoldable pub lower_char : ℕ → ℕ
lower_char c =
    if leb b'A' c && leb c b'Z'
    then c + 32
    else if c == 0x212a
    then b'k'
    else if c == 0x130
    then b'i'
    else c

-- `str.lower`
unfoldable pub lower : Text → Text
unfolding lower_char
lower s = map lower_char s

-- `str.isdigit` on one ASCII character
unfoldable pub is_digit : ℕ → Bool
is_digit c = leb b'0' c && leb c b'9'

unfoldable pub is_prefix : Text → Text → Bool
is_prefix [] s = true
is_prefix (p ∷ ps) [] = false
is_prefix (p ∷ ps) (c ∷ s) = p == c && is_prefix ps s

-- `pattern in s`
unfoldable pub contains : Text → Text → Bool
unfolding is_prefix
contains p [] = is_prefix p []
contains p (c ∷ s) = is_prefix p (c ∷ s) || contains p s

lower_example : lower (codes "Timed OUT") ≡ codes "timed out"
unfolding lower
lower_example = refl

strip_example : strip (codes "  a b ") ≡ codes "a b"
unfolding strip
strip_example = refl

contains_example : contains (codes "refused") (codes "connection refused by") ≡ true
unfolding contains
contains_example = refl

-- A Python integer: `negsuc n` is -(n + 1).
pub data ℤ : Type 0 where
  pos : ℕ → ℤ
  negsuc : ℕ → ℤ

-- Digits, single underscores between them allowed; `last` says whether a digit came before.
unfoldable pub scan_digits : ℕ → Bool → Text → Option ℕ
unfolding is_digit
scan_digits acc last [] = if last then some acc else none
scan_digits acc last (c ∷ s) =
    let rest = scan_digits (if is_digit c then acc * 10 + (c - b'0') else acc) (is_digit c) s in
    if is_digit c || (c == b'_' && last) then rest else none

negated : ℕ → ℤ
negated zero = pos 0
negated (suc n) = negsuc n

read_sign : Text → Option ℤ
unfolding scan_digits negated
read_sign [] = none
read_sign (c ∷ s) =
    if c == b'-'
    then Option.map negated (scan_digits 0 false s)
    else Option.map pos (scan_digits 0 false (if c == b'+' then s else c ∷ s))

-- `int(s)` on ASCII text; `none` is a `ValueError`.
unfoldable pub parse_int : Text → Option ℤ
unfolding strip read_sign
parse_int s = read_sign (strip s)

parse_int_example : parse_int (codes " -1_2 ") ≡ some (negsuc 11)
unfolding parse_int
parse_int_example = refl
