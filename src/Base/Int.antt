-- ===== src/Base/Int.antt =====
-- Signed 64-bit quantities as integers: durations and instants are nanoseconds.
use Prim.Native.Nat.{ℕ, suc, ◌+◌, ◌-◌, ◌≤◌, ◌<◌}
use mathlib.Core.Path.{◌≡◌}
use mathlib.Core.Logic.{◌↔◌}
use mathlib.Core.Bool.{Bool, true, false}
use native.Mathlib.Omega.{arith}
use fire_drill.Base.Tests.{ltb, leb, if◌then◌else◌}

-- `negsuc n` is -(n + 1).
pub data ℤ : Type 0 where
  pos : ℕ → ℤ
  negsuc : ℕ → ℤ

abbrev pub pos_part : ℤ → ℕ
pos_part (pos n) = n
pos_part (negsuc n) = 0

abbrev pub neg_part : ℤ → ℕ
neg_part (pos n) = 0
neg_part (negsuc n) = suc n

-- a - b, as an integer.
abbrev pub sub_ℕ : ℕ → ℕ → ℤ
sub_ℕ a b = if leb b a then pos (a - b) else negsuc (b - a - 1)

infix 50 ◌≤ℤ◌ ◌<ℤ◌
abbrev pub ◌≤ℤ◌ : ℤ → ℤ → Type 0
a ≤ℤ b = pos_part a + neg_part b ≤ pos_part b + neg_part a

abbrev pub ◌<ℤ◌ : ℤ → ℤ → Type 0
a <ℤ b = pos_part a + neg_part b < pos_part b + neg_part a

abbrev pub ltb_ℤ : ℤ → ℤ → Bool
ltb_ℤ a b = ltb (pos_part a + neg_part b) (pos_part b + neg_part a)

abbrev pub leb_ℤ : ℤ → ℤ → Bool
leb_ℤ a b = leb (pos_part a + neg_part b) (pos_part b + neg_part a)

pub leb_ℤ_iff : (a b : ℤ) → (leb_ℤ a b ≡ true) ↔ (a ≤ℤ b)
leb_ℤ_iff a b = ground arith

pub leb_ℤ-false_iff : (a b : ℤ) → (leb_ℤ a b ≡ false) ↔ (b <ℤ a)
leb_ℤ-false_iff a b = ground arith

pub ltb_ℤ_iff : (a b : ℤ) → (ltb_ℤ a b ≡ true) ↔ (a <ℤ b)
ltb_ℤ_iff a b = ground arith

-- The largest `time.Duration`; `Time.Sub` saturates at it and at its negative minus one.
abbrev pub max_duration : ℕ
max_duration = 9223372036854775807

abbrev pub saturate : ℤ → ℤ
saturate (pos n) = if leb n max_duration then pos n else pos max_duration
saturate (negsuc n) = if leb n max_duration then negsuc n else negsuc max_duration

-- `a.Sub(b)` of two instants, nanoseconds since the zero `time.Time`.
unfoldable pub time_sub : ℕ → ℕ → ℤ
time_sub a b = saturate (sub_ℕ a b)

-- Within the range of a duration the difference is exact.
pub time_sub-le_iff :
    (a b m : ℕ) → m < max_duration → (leb_ℤ (time_sub a b) (pos m) ≡ true) ↔ (a ≤ b + m)
unfolding time_sub
time_sub-le_iff a b m h = ground arith

-- Later instants are nearer.
pub time_sub-anti : (n a b : ℕ) → a ≤ b → time_sub n b ≤ℤ time_sub n a
unfolding time_sub
time_sub-anti n a b h = ground arith
