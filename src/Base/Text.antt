-- ===== src/Base/Text.antt =====
-- Texts as lists of bytes, and numbers in decimal.
use Prim.Native.Char.{code}
use Prim.Native.Nat.{ℕ, zero, suc, ◌+◌, ◌*◌, ◌-◌, ◌/◌, ◌%◌, ◌<◌}
use Prim.Native.String.{String}
use mathlib.Core.List.{[], ◌∷◌, ◌++◌}
use mathlib.Core.Path.{◌≡◌, refl}
use native.Mathlib.Omega.{arith}
use shellinabox.Base.Tests.{Bytes, ltb, if◌then◌else◌}

-- The bytes of an ASCII text.
abbrev pub codes : String → Bytes
codes String.[] = []
codes (String.◌∷◌ c s) = code c ∷ codes s

-- The decimal digits of a number; a number has fewer digits than itself plus one.
unfoldable pub digits : ℕ → ℕ → Bytes
digits zero n = []
digits (suc fuel) n =
    let rest = digits fuel (n / 10) in (if ltb n 10 then [] else rest) ++ (b'0' + n % 10) ∷ []

-- `%ld` of a number that is not negative
unfoldable pub decimal : ℕ → Bytes
unfolding digits
decimal n = digits (suc n) n

-- A reader of decimal digits, from a given value on.
unfoldable pub read_decimal : ℕ → Bytes → ℕ
read_decimal acc [] = acc
read_decimal acc (c ∷ cs) = read_decimal (acc * 10 + (c - b'0')) cs

read_decimal-append :
    (acc : ℕ) (xs : Bytes) (c : ℕ)
    → read_decimal acc (xs ++ c ∷ []) ≡ read_decimal acc xs * 10 + (c - b'0')
unfolding read_decimal
read_decimal-append acc [] c = refl
read_decimal-append acc (x ∷ xs) c = read_decimal-append (acc * 10 + (x - b'0')) xs c

read_decimal-digits : (fuel n : ℕ) → n < fuel → read_decimal 0 (digits fuel n) ≡ n
unfolding digits read_decimal
read_decimal-digits zero n h = absurd (omega arith)
read_decimal-digits (suc zero) n h = ground arith
read_decimal-digits (suc (suc fuel)) n h = ground (
  arith,
  read_decimal-append 0 (digits (suc fuel) (n / 10)) (b'0' + n % 10),
  read_decimal-digits (suc fuel) (n / 10),
)

pub read_decimal-decimal : (n : ℕ) → read_decimal 0 (decimal n) ≡ n
unfolding decimal
read_decimal-decimal n = read_decimal-digits (suc n) n (omega arith)
