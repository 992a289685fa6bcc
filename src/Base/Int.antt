-- ===== src/Base/Int.antt =====
-- Signed numbers, as far as Go's `int` and `time.Duration` need them: 64 bits, two's complement.
use Prim.Native.Nat.{ℕ, ◌-◌, ◌*◌, ◌%◌, ◌<◌, min}
use mathlib.Core.Path.{◌≡◌}
use mathlib.Core.Bool.{Bool, true, false}
use native.Mathlib.Omega.{arith}
use cluster_stack_provider_o.Base.Tests.{ltb, leb, if◌then◌else◌}

-- `negsuc n` is -(n + 1).
pub data ℤ : Type 0 where
  pos : ℕ → ℤ
  negsuc : ℕ → ℤ

-- `a < b`
abbrev pub ltb_ℤ : ℤ → ℤ → Bool
ltb_ℤ (pos a) (pos b) = ltb a b
ltb_ℤ (pos a) (negsuc b) = false
ltb_ℤ (negsuc a) (pos b) = true
ltb_ℤ (negsuc a) (negsuc b) = ltb b a

abbrev pub word : ℕ
word = 18446744073709551616  -- 2 ^ 64

abbrev pub half : ℕ
half = 9223372036854775808  -- 2 ^ 63

-- The integer that a 64-bit pattern stands for.
unfoldable pub signed : ℕ → ℤ
signed n = if ltb n half then pos n else negsuc (word - 1 - n)

-- The 64-bit pattern of an integer.
abbrev pub bits : ℤ → ℕ
bits (pos n) = n % word
bits (negsuc n) = word - 1 - n % word

-- `a * b` of two `int64`: the product wraps.
unfoldable pub mul_int64 : ℤ → ℤ → ℤ
unfolding signed
mul_int64 a b = signed ((bits a * bits b) % word)

-- Below 2^63 the product of two numbers that are not negative is exact.
pub mul_int64_exact :
    (a b : ℕ) → a < half → b < half → a * b < half → mul_int64 (pos a) (pos b) ≡ pos (a * b)
unfolding mul_int64
mul_int64_exact a b ha hb h = ground arith

-- `later.Sub(earlier)` of two times in nanoseconds: the difference saturates at 64 bits.
unfoldable pub sub_times : ℕ → ℕ → ℤ
sub_times later earlier =
    if leb earlier later
    then pos (min (later - earlier) (half - 1))
    else negsuc (min (earlier - later - 1) (half - 1))
