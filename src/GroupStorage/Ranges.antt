-- ===== src/GroupStorage/Ranges.antt =====
-- The range of the batch that `Save` puts a number into.
use native.Mathlib.Nat.{mul_comm, div-add-mod, mod-lt}
use durastash.Prelude.{ℕ, ◌+◌, ◌-◌, ◌*◌, ◌/◌, ◌%◌, ◌≤◌, ◌<◌, ◌≡◌, refl, ap, ◌∙◌, arith, pos}
use durastash.Prelude.Int.{i64_limit, u64_mod, to_i64-small, to_u64-pos}
use durastash.GroupStorage.Saving.{batch_start_of, batch_end_of}

div_mul_le : (n size : ℕ) → 0 < size → (n / size * size ≤ n) × (n < n / size * size + size)
div_mul_le n size h =
    let low = mod-lt n h in
    (
      omega (arith, div-add-mod n size, mul_comm (n / size) size),
      omega (arith, low, div-add-mod n size, mul_comm (n / size) size),
    )

-- The last of the numbers from `a` on, `size` of them.
pub batch_end_of-pos :
    (a size : ℕ) → 0 < size → a + size < i64_limit → batch_end_of (pos a) size ≡ pos (a + size - 1)
batch_end_of-pos a size h k =
    unfold batch_end_of in
    rw (to_u64-pos a (omega arith)) (to_i64-small _ (omega arith) ∙ ap pos (omega arith))

-- For a batch size above 0 and numbers that stay below the largest `int64_t`, the range that
-- `Save` computes starts at a multiple of the batch size, has as many numbers as the batch size,
-- and contains the number.
pub batch_range_lem :
    (n size : ℕ)
    → 0 < size
    → n + size < i64_limit
    → (a : ℕ) × (b : ℕ) × (batch_start_of (pos n) size ≡ pos a)
      × (batch_end_of (pos a) size ≡ pos b)
      × (a ≡ n / size * size)
      × (a ≤ n)
      × (n ≤ b)
      × (b + 1 ≡ a + size)
batch_range_lem n size h k =
    let (below, above) = div_mul_le n size h in
    let a = n / size * size in
    (
      a,
      a + size - 1,
      start_of below,
      batch_end_of-pos (n / size * size) size h (omega arith),
      refl,
      below,
      omega arith,
      omega arith,
    )
  where
    start_of : n / size * size ≤ n → batch_start_of (pos n) size ≡ pos (n / size * size)
    start_of below =
        unfold batch_start_of in
        rw (to_u64-pos n (omega arith))
          (to_i64-small (n / size * size % u64_mod) (omega arith) ∙ ap pos (omega arith))
