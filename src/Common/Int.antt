-- ===== src/Common/Int.antt =====
-- Go's int64: a signed integer whose addition wraps modulo 2 ^ 64.
use Prim.Native.Nat.{ℕ, ◌+◌, ◌-◌, ◌*◌, ◌/◌, ◌%◌, ◌^◌, ◌<◌, min}
use mathlib.Core.Path.{◌≡◌}
use mathlib.Core.Logic.{◌↔◌}
use mathlib.Core.Bool.{Bool, true}
use native.Mathlib.Omega.{arith}
use recon_sync.Common.Tests.{ltb, leb, ◌==◌, if◌then◌else◌}

-- `negsuc n` is -(n + 1).
pub data ℤ : Type 0 where
  pos : ℕ → ℤ
  negsuc : ℕ → ℤ

abbrev pub pos_part : ℤ → ℕ
pos_part (pos n) = n
pos_part (negsuc n) = 0

abbrev pub neg_part : ℤ → ℕ
neg_part (pos n) = 0
neg_part (negsuc n) = n + 1

-- The tests `a < b` and `a == b`.
abbrev pub ltℤ : ℤ → ℤ → Bool
ltℤ a b = ltb (pos_part a + neg_part b) (pos_part b + neg_part a)

abbrev pub eqℤ : ℤ → ℤ → Bool
eqℤ a b = (pos_part a + neg_part b) == (pos_part b + neg_part a)

pub eqℤ_iff : (a b : ℤ) → (eqℤ a b ≡ true) ↔ (a ≡ b)
eqℤ_iff a b = ground arith

-- The bit pattern of an integer in 64 bits, and the integer that a pattern stands for.
abbrev pub bits64 : ℤ → ℕ
bits64 (pos n) = n % 2 ^ 64
bits64 (negsuc n) = 2 ^ 64 - 1 - n % 2 ^ 64

abbrev pub of_bits64 : ℕ → ℤ
of_bits64 u = if ltb u (2 ^ 63) then pos u else negsuc (2 ^ 64 - 1 - u)

-- `a + b`, `a - b` on int64.
unfoldable pub add64 : ℤ → ℤ → ℤ
add64 a b = of_bits64 ((bits64 a + bits64 b) % 2 ^ 64)

unfoldable pub sub64 : ℤ → ℤ → ℤ
sub64 a b = of_bits64 ((bits64 a + 2 ^ 64 - bits64 b) % 2 ^ 64)

-- `time.Duration(n) * time.Second`.
unfoldable pub seconds64 : ℤ → ℤ
seconds64 n = of_bits64 (bits64 n * 1_000_000_000 % 2 ^ 64)

-- `t.Add(d)`. An instant is a number of nanoseconds, and none is before 0.
unfoldable pub add_time : ℕ → ℤ → ℕ
add_time t d = t + pos_part d - neg_part d

-- `t.Sub(u)`, which stops at the largest and the smallest int64.
unfoldable pub sub_time : ℕ → ℕ → ℤ
sub_time t u =
    if leb u t then pos (min (t - u) (2 ^ 63 - 1)) else negsuc (min (u - t - 1) (2 ^ 63 - 1))

-- Amounts whose sum is below 2 ^ 63 add up exactly.
pub add64_exact : (a b : ℕ) → a + b < 2 ^ 63 → add64 (pos a) (pos b) ≡ pos (a + b)
unfolding add64
add64_exact a b h = ground arith

pub sub64_exact : (a b : ℕ) → a < 2 ^ 63 → b < a + 1 → sub64 (pos a) (pos b) ≡ pos (a - b)
unfolding sub64
sub64_exact a b h k = ground arith

-- Two positive amounts whose sum is 2 ^ 63 or more add up to a negative amount.
pub add64_wraps :
    (a b : ℕ)
    → a < 2 ^ 63
    → b < 2 ^ 63
    → 2 ^ 63 < a + b + 1
    → ltℤ (add64 (pos a) (pos b)) (pos 0) ≡ true
unfolding add64
add64_wraps a b h k l = ground arith

-- a - b, as an integer.
abbrev pub sub_ℕ : ℕ → ℕ → ℤ
sub_ℕ a b = if leb b a then pos (a - b) else negsuc (b - a - 1)

infixl 65 ◌+ℤ◌
abbrev pub ◌+ℤ◌ : ℤ → ℤ → ℤ
a +ℤ b = sub_ℕ (pos_part a + pos_part b) (neg_part a + neg_part b)

-- `int(d / time.Second)`, which drops the fraction.
unfoldable pub whole_seconds : ℤ → ℤ
whole_seconds (pos n) = pos (n / 1_000_000_000)
whole_seconds (negsuc n) = sub_ℕ 0 ((n + 1) / 1_000_000_000)
