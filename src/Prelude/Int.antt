-- ===== src/Prelude/Int.antt =====
-- `int64_t` as a signed integer, `uint64_t` as a number, and the conversions between them.
use Prim.Native.Nat.{ℕ, suc, ◌+◌, ◌-◌, ◌%◌, ◌^◌, ◌<◌, ◌≤◌}
use mathlib.Core.Path.{◌≡◌}
use mathlib.Core.Bool.{Bool}
use native.Mathlib.Omega.{arith}
use durastash.Prelude.Tests.{ltb, leb, if◌then◌else◌}

-- `negsuc n` is -(n + 1).
pub data ℤ : Type 0 where
  pos : ℕ → ℤ
  negsuc : ℕ → ℤ

abbrev pub pos_part : ℤ → ℕ
pos_part (pos n) = n
pos_part (negsuc n) = 0

abbrev pub neg_part : ℤ → ℕ
neg_part (pos n) = 0
neg_part (negsuc n) = suc n

abbrev pub ltb_ℤ : ℤ → ℤ → Bool
ltb_ℤ a b = ltb (pos_part a + neg_part b) (pos_part b + neg_part a)

abbrev pub leb_ℤ : ℤ → ℤ → Bool
leb_ℤ a b = leb (pos_part a + neg_part b) (pos_part b + neg_part a)

infix 50 ◌≤ℤ◌
abbrev pub ◌≤ℤ◌ : ℤ → ℤ → Type 0
a ≤ℤ b = pos_part a + neg_part b ≤ pos_part b + neg_part a

abbrev pub u64_mod : ℕ
u64_mod = 2 ^ 64

abbrev pub i64_limit : ℕ
i64_limit = 2 ^ 63

-- `static_cast<uint64_t>` of a signed value.
unfoldable pub to_u64 : ℤ → ℕ
to_u64 (pos n) = n % u64_mod
to_u64 (negsuc n) = u64_mod - 1 - n % u64_mod

-- `static_cast<int64_t>` of an unsigned value.
unfoldable pub to_i64 : ℕ → ℤ
to_i64 n =
    if ltb (n % u64_mod) i64_limit then pos (n % u64_mod) else negsuc (u64_mod - 1 - n % u64_mod)

-- Signed addition in two's complement.
unfoldable pub add_i64 : ℤ → ℤ → ℤ
unfolding to_u64 to_i64
add_i64 a b = to_i64 (to_u64 a + to_u64 b)

-- Signed subtraction in two's complement.
unfoldable pub sub_i64 : ℤ → ℤ → ℤ
unfolding to_u64 to_i64
sub_i64 a b = to_i64 (to_u64 a + u64_mod - to_u64 b)

pub add_i64-pos : (m n : ℕ) → m + n < i64_limit → add_i64 (pos m) (pos n) ≡ pos (m + n)
unfolding add_i64
add_i64-pos m n h = ground arith

pub to_i64-bounded : (n : ℕ) → pos_part (to_i64 n) < i64_limit
unfolding to_i64
to_i64-bounded n = ground arith

pub add_i64-bounded : (a b : ℤ) → pos_part (add_i64 a b) < i64_limit
unfolding add_i64
add_i64-bounded a b = to_i64-bounded (to_u64 a + to_u64 b)

pub to_i64-small : (n : ℕ) → n < i64_limit → to_i64 n ≡ pos n
unfolding to_i64
to_i64-small n h = ground arith

pub to_u64-pos : (n : ℕ) → n < u64_mod → to_u64 (pos n) ≡ n
unfolding to_u64
to_u64-pos n h = omega arith
