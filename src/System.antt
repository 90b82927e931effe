-- ===== src/System.antt =====
-- What ULIDs and sessions take from the host: the system clock, the random generator and the
-- process id. None of these is code of the repository, so they are a parameter.
use durastash.Prelude.{ℕ, ◌<◌, ℤ}

pub record System : Type 1 where
  -- the clock and the state of the generator
  pub Host : Type 0
  -- milliseconds of `system_clock::now().time_since_epoch()`, read as `uint64_t`
  pub clock_ms : Host → ℕ × Host
  -- `distribution(generator)` for `uniform_int_distribution<uint32_t>(0, 31)`
  pub draw : Host → ℕ × Host
  -- `getpid()`
  pub process_id : ℤ

-- What the standard library promises of a draw: it lies between 0 and 31.
pub record IsInRange (sys : System) : Type 0 where
  pub draw_lt : (h : sys.Host) → (sys.draw h).0 < 32
