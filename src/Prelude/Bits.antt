-- ===== src/Prelude/Bits.antt =====
-- `|` and `&` on native numbers, where they are sums and remainders.
use Prim.Native.Nat.{
  ℕ, zero, suc, ◌+◌, ◌*◌, ◌/◌, ◌%◌, ◌^◌, ◌≤◌, ◌<◌, min, max, bit_and, bit_or, digits,
  bit_and-bitwise, bit_or-bitwise,
}
use mathlib.Core.Path.{◌≡◌, refl, sym, ap, ◌∙◌}
use native.Mathlib.Omega.{arith}
use native.Mathlib.Nat.{pow-suc}

module _ (rest : ℕ → ℕ) (join : ℕ → ℕ → ℕ) where
  digits-zero : (x v : ℕ) → digits rest join x zero v ≡ rest v
  digits-zero zero v = refl
  digits-zero (suc x) v = refl

  -- The number of rounds does not matter where it is large enough.
  same_digits : (x y u v : ℕ) → u ≤ x → u ≤ y → digits rest join x u v ≡ digits rest join y u v
  same_digits x y zero v h k = digits-zero x v ∙ sym (digits-zero y v)
  same_digits (suc x) (suc y) (suc u) v h k =
      let halves = same_digits x y (suc u / 2) (v / 2) (omega arith) (omega arith) in
      ap (λ (t : ℕ). t * 2 + join (suc u % 2) (v % 2)) halves
  same_digits zero y (suc u) v h k = absurd (omega arith)
  same_digits (suc x) zero (suc u) v h k = absurd (omega arith)

-- The lowest digit and the other ones, for `&` and for `|`.
bit_and_split : (u v : ℕ) → bit_and u v ≡ min (u % 2) (v % 2) + bit_and (u / 2) (v / 2) * 2
bit_and_split zero v = omega (arith, bit_and-bitwise 0 v, bit_and-bitwise 0 (v / 2))
bit_and_split (suc u) v =
    let low = bit_and-bitwise (suc u) v in
    let high = bit_and-bitwise (suc u / 2) (v / 2) in
    let rounds =
      same_digits (λ t. 0) min u (suc u / 2) (suc u / 2) (v / 2) (omega arith) (omega arith) in
    omega (arith, low, high, rounds)

bit_or_split : (u v : ℕ) → bit_or u v ≡ max (u % 2) (v % 2) + bit_or (u / 2) (v / 2) * 2
bit_or_split zero v = omega (arith, bit_or-bitwise 0 v, bit_or-bitwise 0 (v / 2))
bit_or_split (suc u) v =
    let low = bit_or-bitwise (suc u) v in
    let high = bit_or-bitwise (suc u / 2) (v / 2) in
    let rounds =
      same_digits (λ t. t) max u (suc u / 2) (suc u / 2) (v / 2) (omega arith) (omega arith) in
    omega (arith, low, high, rounds)

and_nothing : (x u : ℕ) → digits (λ t. 0) min x u 0 ≡ 0
and_nothing zero u = refl
and_nothing (suc x) zero = refl
and_nothing (suc x) (suc u) = omega (arith, and_nothing x (suc u / 2))

or_nothing : (x u : ℕ) → u ≤ x → digits (λ t. t) max x u 0 ≡ u
or_nothing x zero h = digits-zero (λ t. t) max x 0
or_nothing zero (suc u) h = absurd (omega arith)
or_nothing (suc x) (suc u) h = omega (arith, or_nothing x (suc u / 2) (omega arith))

bit_and-zero : (u : ℕ) → bit_and u 0 ≡ 0
bit_and-zero u = bit_and-bitwise u 0 ∙ and_nothing u u

pub bit_or-zero : (u : ℕ) → bit_or u 0 ≡ u
bit_or-zero u = bit_or-bitwise u 0 ∙ or_nothing u u (omega arith)

-- The mask `0x1F` keeps the remainder by 32.
pub bit_and-31 : (a : ℕ) → bit_and a 31 ≡ a % 32
bit_and-31 a = omega (
  arith,
  bit_and_split a 31,
  bit_and_split (a / 2) 15,
  bit_and_split (a / 2 / 2) 7,
  bit_and_split (a / 2 / 2 / 2) 3,
  bit_and_split (a / 2 / 2 / 2 / 2) 1,
  bit_and-zero (a / 2 / 2 / 2 / 2 / 2),
)

-- Bits that do not meet add up: `a | (d << k)` is `a + (d << k)` for `a` below `1 << k`.
pub bit_or-shifted : (k a d : ℕ) → a < 2 ^ k → bit_or a (d * 2 ^ k) ≡ a + d * 2 ^ k
bit_or-shifted zero zero d h = omega (arith, bit_or-bitwise 0 (d * 2 ^ 0))
bit_or-shifted zero (suc a) d h = absurd (omega arith)
bit_or-shifted (suc k) a d h = omega (
  arith,
  bit_or_split a (d * 2 ^ suc k),
  bit_or-shifted k (a / 2) d (omega (arith, pow-suc 2 k)),
  ap (λ (t : ℕ). d * t) (pow-suc 2 k),
  ap (bit_or (a / 2)) half_shift,
)
  where
    half_shift : d * 2 ^ suc k / 2 ≡ d * 2 ^ k
    half_shift = rw pow-suc (omega arith)

-- `(x << 5) | v` is `32 * x + v` for a digit `v`.
pub bit_or-digit : (x v : ℕ) → v < 32 → bit_or (x * 32) v ≡ x * 32 + v
bit_or-digit x v h = omega (
  arith,
  bit_or_split (x * 32) v,
  bit_or_split (x * 32 / 2) (v / 2),
  bit_or_split (x * 32 / 2 / 2) (v / 2 / 2),
  bit_or_split (x * 32 / 2 / 2 / 2) (v / 2 / 2 / 2),
  bit_or_split (x * 32 / 2 / 2 / 2 / 2) (v / 2 / 2 / 2 / 2),
  ap (bit_or (x * 32 / 2 / 2 / 2 / 2 / 2)) spent,
  bit_or-zero (x * 32 / 2 / 2 / 2 / 2 / 2),
)
  where
    spent : v / 2 / 2 / 2 / 2 / 2 ≡ 0
    spent = omega arith
