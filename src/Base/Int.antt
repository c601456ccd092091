-- ===== src/Base/Int.antt =====
-- Go's `int` where a value may be negative (priorities, ports and seconds of a custom resource).
-- The program compares these numbers, and multiplies two settings by a constant, where the product
-- wraps around.
use Prim.Native.Nat.{ℕ, suc, ◌+◌, ◌-◌, ◌*◌, ◌%◌, ◌≤◌, ◌<◌}
use mathlib.Core.Path.{◌≡◌, refl}
use mathlib.Core.Logic.{◌↔◌}
use mathlib.Core.Bool.{Bool, true}
use native.Mathlib.Omega.{arith}
use nebari_landing.Base.Tests.{ltb, ◌==◌, if◌then◌else◌}

-- `negsuc n` is -(n + 1).
pub data ℤ : Type 0 where
  pos : ℕ → ℤ
  negsuc : ℕ → ℤ

abbrev pub pos_part : ℤ → ℕ
pos_part (pos n) = n
pos_part (negsuc n) = 0

abbrev pub neg_part : ℤ → ℕ
neg_part (pos n) = 0
neg_part (negsuc n) = suc n

infix 50 ◌≤ℤ◌ ◌<ℤ◌
abbrev pub ◌≤ℤ◌ : ℤ → ℤ → Type 0
a ≤ℤ b = pos_part a + neg_part b ≤ pos_part b + neg_part a

abbrev pub ◌<ℤ◌ : ℤ → ℤ → Type 0
a <ℤ b = pos_part a + neg_part b < pos_part b + neg_part a

abbrev pub ltb_ℤ : ℤ → ℤ → Bool
ltb_ℤ a b = ltb (pos_part a + neg_part b) (pos_part b + neg_part a)

abbrev pub eq_ℤ : ℤ → ℤ → Bool
eq_ℤ a b = pos_part a + neg_part b == pos_part b + neg_part a

pub eq_ℤ_iff : (a b : ℤ) → (eq_ℤ a b ≡ true) ↔ (a ≡ b)
eq_ℤ_iff a b = ground arith

-- The number of 64 bits with a sign whose bits are those of `n`, below 2 ^ 64.
abbrev pub signed_64 : ℕ → ℤ
signed_64 n = if ltb n 9223372036854775808 then pos n else negsuc (18446744073709551615 - n)

-- `time.Duration(seconds) * time.Second`, in nanoseconds.
unfoldable pub duration_of_seconds : ℤ → ℤ
duration_of_seconds (pos n) = signed_64 (n * 1000000000 % 18446744073709551616)
duration_of_seconds (negsuc n) =
    signed_64
      ((18446744073709551616 - suc n * 1000000000 % 18446744073709551616) % 18446744073709551616)

-- Up to 292 years the duration is positive.
pub duration_of_seconds-positive :
    (seconds : ℤ)
    → pos 0 <ℤ seconds
    → seconds ≤ℤ pos 9223372036
    → pos 0 <ℤ duration_of_seconds seconds
unfolding duration_of_seconds
duration_of_seconds-positive (pos n) low high = ground arith
duration_of_seconds-positive (negsuc n) low high = omega (arith, low)

duration_of_seconds_overflow : duration_of_seconds (pos 9300000000) ≡ negsuc 9146744073709551615
unfolding duration_of_seconds
duration_of_seconds_overflow = refl

duration_of_seconds_negative : duration_of_seconds (negsuc 1) ≡ negsuc 1999999999
unfolding duration_of_seconds
duration_of_seconds_negative = refl
