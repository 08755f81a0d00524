-- ===== src/Prelude/Int64.antt =====
-- Go's int64 as a bit pattern below 2 ^ 64, read as a two's complement number. Each operation
-- writes its wrap-around out.
use Prim.Native.Nat.{ℕ, ◌+◌, ◌-◌, ◌*◌, ◌/◌, ◌%◌, ◌^◌, ◌<◌, bit_and, bit_or, bit_xor}
use mathlib.Core.Bool.{Bool, not}
use rips.Prelude.Tests.{ltb, leb, if◌then◌else◌}
use rips.Prelude.Int.{ℤ, pos, negsuc}

abbrev pub modulus : ℕ
modulus = 2 ^ 64

abbrev pub half : ℕ
half = 2 ^ 63

-- A pattern of 64 bits.
abbrev pub IsInt64 : ℕ → Type 0
IsInt64 n = n < modulus

-- The pattern of -1.
abbrev pub minus_one : ℕ
minus_one = modulus - 1

abbrev pub is_neg : ℕ → Bool
is_neg a = leb half a

abbrev pub slt : ℕ → ℕ → Bool
slt a b = ltb ((a + half) % modulus) ((b + half) % modulus)

unfoldable pub add64 : ℕ → ℕ → ℕ
add64 a b = (a + b) % modulus

unfoldable pub sub64 : ℕ → ℕ → ℕ
sub64 a b = (a + (modulus - b)) % modulus

unfoldable pub mul64 : ℕ → ℕ → ℕ
mul64 a b = (a * b) % modulus

unfoldable pub not64 : ℕ → ℕ
not64 a = (modulus - 1 - a) % modulus

abbrev neg64 : ℕ → ℕ
neg64 a = (modulus - a) % modulus

-- The distance from 0.
abbrev magnitude : ℕ → ℕ
magnitude a = if is_neg a then modulus - a else a

-- Go's `/` rounds towards zero, and -2 ^ 63 / -1 wraps to -2 ^ 63.
unfoldable pub quo64 : ℕ → ℕ → ℕ
quo64 a b =
    let q = magnitude a / magnitude b in
    if (if is_neg a then not (is_neg b) else is_neg b) then neg64 q else q % modulus

-- Go's `%` takes the sign of the dividend.
unfoldable pub rem64 : ℕ → ℕ → ℕ
rem64 a b = let r = magnitude a % magnitude b in if is_neg a then neg64 r else r % modulus

unfoldable pub and64 : ℕ → ℕ → ℕ
and64 a b = bit_and a b % modulus

unfoldable pub or64 : ℕ → ℕ → ℕ
or64 a b = bit_or a b % modulus

unfoldable pub xor64 : ℕ → ℕ → ℕ
xor64 a b = bit_xor a b % modulus

-- The number that a pattern stands for, and the pattern of a number.
unfoldable pub signed : ℕ → ℤ
signed a = if is_neg a then negsuc (modulus - 1 - a) else pos a

unfoldable pub pattern_of : ℤ → ℕ
pattern_of (pos n) = n % modulus
pattern_of (negsuc n) = modulus - 1 - n % modulus
