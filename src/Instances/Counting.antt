-- ===== src/Instances/Counting.antt =====
-- A host that counts: each reading of the clock and each draw is the next number.
use durastash.Prelude.{ℕ, ◌+◌, ◌%◌, arith, pos}
use durastash.System.{System, IsInRange}

abbrev pub counting : System
counting = record {
  Host = ℕ;
  clock_ms = λ h. (h, h + 1);
  draw = λ h. (h % 32, h + 1);
  process_id = pos 1;
}

pub counting-IsInRange : IsInRange counting
counting-IsInRange = record { draw_lt = λ h. omega arith }
