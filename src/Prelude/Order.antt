-- ===== src/Prelude/Order.antt =====
-- The order of byte strings, and how it meets prefixes.
use durastash.Prelude.Text.{Bytes, bytes_eq, bytes_lt, bytes_le, starts_with}
use mathlib.Core.Path.{◌≡◌, refl}
use mathlib.Core.Bool.{true, false, not}
use mathlib.Core.List.{[], ◌∷◌}
use native.Mathlib.Omega.{arith}

pub bytes_lt_trans :
    (a b c : Bytes) → bytes_lt a b ≡ true → bytes_lt b c ≡ true → bytes_lt a c ≡ true
unfolding bytes_lt
bytes_lt_trans a [] c h k = cc
bytes_lt_trans a (y ∷ ys) [] h k = cc
bytes_lt_trans [] (y ∷ ys) (z ∷ zs) h k = refl
bytes_lt_trans (x ∷ xs) (y ∷ ys) (z ∷ zs) h k = ground (arith, bytes_lt_trans xs ys zs)

pub bytes_le-not-lt : (a b : Bytes) → bytes_le a b ≡ not (bytes_lt b a)
unfolding bytes_lt bytes_le
bytes_le-not-lt [] [] = refl
bytes_le-not-lt [] (y ∷ ys) = refl
bytes_le-not-lt (x ∷ xs) [] = refl
bytes_le-not-lt (x ∷ xs) (y ∷ ys) = ground (arith, bytes_le-not-lt xs ys)

-- What lies between a prefix and a string with that prefix has the prefix too.
pub starts_with-between :
    (p j k : Bytes)
    → bytes_lt j p ≡ false
    → bytes_lt j k ≡ true
    → starts_with p k ≡ true
    → starts_with p j ≡ true
unfolding bytes_lt starts_with
starts_with-between [] j k h l s = refl
starts_with-between (a ∷ p) j [] h l s = cc
starts_with-between (a ∷ p) [] (y ∷ ys) h l s = cc
starts_with-between (a ∷ p) (x ∷ xs) (y ∷ ys) h l s = ground (arith, starts_with-between p xs ys)

-- A string with a prefix is not smaller than the prefix.
pub not-lt_of_starts_with : (p k : Bytes) → starts_with p k ≡ true → bytes_lt k p ≡ false
unfolding bytes_lt starts_with
not-lt_of_starts_with [] [] h = refl
not-lt_of_starts_with [] (y ∷ ys) h = refl
not-lt_of_starts_with (a ∷ p) [] h = cc
not-lt_of_starts_with (a ∷ p) (y ∷ ys) h = ground (arith, not-lt_of_starts_with p ys)

-- What lies below a string that is at most the end is at most the end.
pub bytes_le_of_lt :
    (j k e : Bytes) → bytes_lt j k ≡ true → bytes_le k e ≡ true → bytes_le j e ≡ true
unfolding bytes_lt bytes_le
bytes_le_of_lt [] k e h l = refl
bytes_le_of_lt (x ∷ xs) [] e h l = cc
bytes_le_of_lt (x ∷ xs) (y ∷ ys) [] h l = cc
bytes_le_of_lt (x ∷ xs) (y ∷ ys) (z ∷ zs) h l = ground (arith, bytes_le_of_lt xs ys zs)

pub bytes_lt_irrefl : (a : Bytes) → bytes_lt a a ≡ false
unfolding bytes_lt
bytes_lt_irrefl [] = refl
bytes_lt_irrefl (x ∷ xs) = ground (arith, bytes_lt_irrefl xs)

-- Of two different strings one is the smaller.
pub bytes_lt_total :
    (a b : Bytes) → bytes_eq a b ≡ false → bytes_lt a b ≡ false → bytes_lt b a ≡ true
unfolding bytes_lt bytes_eq
bytes_lt_total [] [] h k = cc
bytes_lt_total [] (y ∷ ys) h k = cc
bytes_lt_total (x ∷ xs) [] h k = refl
bytes_lt_total (x ∷ xs) (y ∷ ys) h k = ground (arith, bytes_lt_total xs ys)
