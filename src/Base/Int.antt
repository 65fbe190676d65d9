-- ===== src/Base/Int.antt =====
-- Signed integers over the native numbers, under the library's names (its ℤ stands on the unary ℕ),
-- and the 64-bit arithmetic of Go's `int64`.
use Prim.Native.Nat.{ℕ, suc, ◌+◌, ◌-◌, ◌<◌, ◌^◌, ◌%◌}
use mathlib.Core.Path.{◌≡◌, ap}
use mathlib.Core.Bool.{Bool, true}
use native.Mathlib.Omega.{arith}
use gpu_bouncer.Base.Tests.{ltb, leb, eqb, if◌then◌else◌, u64_mod}

-- `negsuc n` is -(n + 1).
pub data ℤ : Type 0 where
  pos : ℕ → ℤ
  negsuc : ℕ → ℤ

abbrev pub pos_part : ℤ → ℕ
pos_part (pos n) = n
pos_part (negsuc n) = 0

abbrev pub neg_part : ℤ → ℕ
neg_part (pos n) = 0
neg_part (negsuc n) = suc n

abbrev pub ltb_ℤ : ℤ → ℤ → Bool
ltb_ℤ a b = ltb (pos_part a + neg_part b) (pos_part b + neg_part a)

abbrev pub leb_ℤ : ℤ → ℤ → Bool
leb_ℤ a b = leb (pos_part a + neg_part b) (pos_part b + neg_part a)

abbrev pub eqb_ℤ : ℤ → ℤ → Bool
eqb_ℤ a b = eqb (pos_part a + neg_part b) (pos_part b + neg_part a)

pub eqb_ℤ_sound : (a b : ℤ) → eqb_ℤ a b ≡ true → a ≡ b
eqb_ℤ_sound (pos a) (pos b) h = ap pos (ground (arith, h))
eqb_ℤ_sound (pos a) (negsuc b) h = absurd (ground (arith, h))
eqb_ℤ_sound (negsuc a) (pos b) h = absurd (ground (arith, h))
eqb_ℤ_sound (negsuc a) (negsuc b) h = ap negsuc (ground (arith, h))

-- The bit pattern of an `int64`, and the `int64` of a bit pattern: Go's conversions between `uint64`
-- and `int64`.
abbrev pub to_uint64 : ℤ → ℕ
to_uint64 (pos n) = n % u64_mod
to_uint64 (negsuc n) = u64_mod - 1 - n % u64_mod

abbrev pub to_int64 : ℕ → ℤ
to_int64 w = if ltb w (2 ^ 63) then pos w else negsuc (u64_mod - 1 - w)

-- Addition and subtraction of `int64`, which wrap.
unfoldable pub add_int64 : ℤ → ℤ → ℤ
add_int64 a b = to_int64 ((to_uint64 a + to_uint64 b) % u64_mod)

unfoldable pub sub_int64 : ℤ → ℤ → ℤ
sub_int64 a b = to_int64 ((to_uint64 a + u64_mod - to_uint64 b) % u64_mod)

-- a - b, as an integer.
abbrev pub sub_ℕ : ℕ → ℕ → ℤ
sub_ℕ a b = if leb b a then pos (a - b) else negsuc (b - a - 1)

-- Without overflow they are those of the integers.
pub add_int64_nonneg : (a b : ℕ) → a + b < 2 ^ 63 → add_int64 (pos a) (pos b) ≡ pos (a + b)
unfolding add_int64
add_int64_nonneg a b h = ground arith

pub sub_int64_small : (a b : ℕ) → a < 2 ^ 63 → b < 2 ^ 63 → sub_int64 (pos a) (pos b) ≡ sub_ℕ a b
unfolding sub_int64
sub_int64_small a b h k = ground arith
