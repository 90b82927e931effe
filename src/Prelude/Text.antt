-- ===== src/Prelude/Text.antt =====
-- `std::string` as a list of bytes: comparison, prefixes, search and decimal output.
use Prim.Native.Char.{code}
use Prim.Native.String.{String}
use Prim.Native.Nat.{ℕ, zero, suc, ◌+◌, ◌-◌, ◌*◌, ◌/◌, ◌%◌, ◌<◌}
use mathlib.Core.Path.{◌≡◌, refl, sym, ap, ◌∙◌}
use mathlib.Core.Logic.{◌↔◌, ◌≢◌}
use mathlib.Core.Bool.{Bool, true, false, ◌&&◌, ◌||◌}
use mathlib.Core.List.{List, [], ◌∷◌, ◌++◌}
use native.Mathlib.Omega.{arith}
use durastash.Prelude.Tests.{ltb, ◌==◌, if◌then◌else◌}
use durastash.Prelude.Lists.{length, replicate}
use durastash.Prelude.Int.{ℤ, pos, negsuc}

abbrev pub Bytes : Type 0
Bytes = List ℕ

-- The bytes of a literal (ASCII).
abbrev pub codes : String → Bytes
codes String.[] = []
codes (String.◌∷◌ c s) = code c ∷ codes s

-- `a == b`
unfoldable pub bytes_eq : Bytes → Bytes → Bool
bytes_eq [] [] = true
bytes_eq [] (y ∷ ys) = false
bytes_eq (x ∷ xs) [] = false
bytes_eq (x ∷ xs) (y ∷ ys) = x == y && bytes_eq xs ys

-- `s.empty()`
unfoldable pub is_empty : Bytes → Bool
is_empty [] = true
is_empty (x ∷ xs) = false

-- `a < b`: the first byte that differs decides, and a proper prefix is smaller.
unfoldable pub bytes_lt : Bytes → Bytes → Bool
bytes_lt xs [] = false
bytes_lt [] (y ∷ ys) = true
bytes_lt (x ∷ xs) (y ∷ ys) = ltb x y || x == y && bytes_lt xs ys

-- `a <= b`
unfoldable pub bytes_le : Bytes → Bytes → Bool
bytes_le [] ys = true
bytes_le (x ∷ xs) [] = false
bytes_le (x ∷ xs) (y ∷ ys) = ltb x y || x == y && bytes_le xs ys

-- `s.starts_with(prefix)`, the prefix first.
unfoldable pub starts_with : Bytes → Bytes → Bool
starts_with [] s = true
starts_with (p ∷ ps) [] = false
starts_with (p ∷ ps) (x ∷ xs) = p == x && starts_with ps xs

-- `s.find(needle) != npos`
unfoldable pub contains : Bytes → Bytes → Bool
contains needle [] = starts_with needle []
contains needle (x ∷ xs) = starts_with needle (x ∷ xs) || contains needle xs

-- The decimal digits of `n`, most significant first; each round drops a digit.
unfoldable pub decimal_loop : ℕ → ℕ → Bytes
decimal_loop zero n = []
decimal_loop (suc f) n =
    let rest = decimal_loop f (n / 10) in
    if ltb n 10 then (48 + n) ∷ [] else rest ++ ((48 + n % 10) ∷ [])

-- `std::to_string`, and `<<` into a stream.
unfoldable pub decimal : ℤ → Bytes
unfolding decimal_loop
decimal (pos n) = decimal_loop (suc n) n
decimal (negsuc n) = 45 ∷ decimal_loop (suc (suc n)) (suc n)

-- `std::setfill('0') << std::setw(width)`: fill characters stand on the left.
unfoldable pub pad_left : ℕ → Bytes → Bytes
pad_left width s = replicate (width - length s) 48 ++ s

pub bytes_eq_iff : (a b : Bytes) → (bytes_eq a b ≡ true) ↔ (a ≡ b)
unfolding bytes_eq
bytes_eq_iff [] [] = (λ h. refl, λ h. refl)
bytes_eq_iff [] (y ∷ ys) = (λ h. cc, λ h. cc)
bytes_eq_iff (x ∷ xs) [] = (λ h. cc, λ h. cc)
bytes_eq_iff (x ∷ xs) (y ∷ ys) =
    (λ h. ground (arith, bytes_eq_iff xs ys), λ h. ground (arith, bytes_eq_iff xs ys))

pub bytes_eq_refl : (a : Bytes) → bytes_eq a a ≡ true
bytes_eq_refl a = (bytes_eq_iff a a).1 refl

pub bytes_eq_ne : (a b : Bytes) → a ≢ b → bytes_eq a b ≡ false
bytes_eq_ne a b h = ground (arith, bytes_eq_iff a b)

pub starts_with-append : (p s : Bytes) → starts_with p (p ++ s) ≡ true
unfolding starts_with
starts_with-append [] s = refl
starts_with-append (x ∷ p) s = ground (arith, starts_with-append p s)

-- The number that decimal digits stand for, read from the left.
unfoldable pub decimal_value : ℕ → Bytes → ℕ
decimal_value acc [] = acc
decimal_value acc (c ∷ cs) = decimal_value (acc * 10 + (c - 48)) cs

pub decimal_value-append :
    (acc : ℕ) (xs ys : Bytes)
    → decimal_value acc (xs ++ ys) ≡ decimal_value (decimal_value acc xs) ys
unfolding decimal_value
decimal_value-append acc [] ys = refl
decimal_value-append acc (x ∷ xs) ys = decimal_value-append (acc * 10 + (x - 48)) xs ys

decimal_value-replicate : (k : ℕ) → decimal_value 0 (replicate k 48) ≡ 0
unfolding decimal_value
decimal_value-replicate zero = refl
decimal_value-replicate (suc k) = decimal_value-replicate k

decimal_value-loop : (f n : ℕ) → n < f → decimal_value 0 (decimal_loop f n) ≡ n
unfolding decimal_loop decimal_value
decimal_value-loop zero n h = absurd (omega arith)
decimal_value-loop (suc f) n h = ground (
  arith,
  decimal_value-append 0 (decimal_loop f (n / 10)) ((48 + n % 10) ∷ []),
  decimal_value-loop f (n / 10),
)

-- Padded decimal digits still stand for the number.
pub decimal_value-pad_left : (width n : ℕ) → decimal_value 0 (pad_left width (decimal (pos n))) ≡ n
unfolding pad_left decimal
decimal_value-pad_left width n =
    decimal_value-append 0 (replicate (width - length (decimal_loop (suc n) n)) 48) _
    ∙ ap (λ a. decimal_value a (decimal_loop (suc n) n)) (decimal_value-replicate _)
    ∙ decimal_value-loop (suc n) n (omega arith)

-- Decimal digits determine the number.
pub decimal-injective : (m n : ℕ) → decimal (pos m) ≡ decimal (pos n) → m ≡ n
unfolding decimal
decimal-injective m n h =
    sym (decimal_value-loop (suc m) m (omega arith))
    ∙ ap (decimal_value 0) h
    ∙ decimal_value-loop (suc n) n (omega arith)
