-- ===== src/Storage.antt =====
-- include/durastash/storage.h: the interface `IStorage`. The two output vectors of a scan are one
-- list of pairs, beside the count that the call returns.
pub mod Contract
use durastash.Prelude.{ℕ, Bool, Option, List, Bytes}
use durastash.Outcome.{M}

pub record IStorage : Type 1 where
  pub State : Type 0
  pub initialize : Bytes → M State Bool
  pub shutdown : M State (Unit {0})
  pub put : Bytes → Bytes → M State Bool
  pub get : Bytes → M State (Option Bytes)
  pub delete : Bytes → M State Bool
  pub exists : Bytes → M State Bool
  pub scan : Bytes → Bytes → ℕ → M State (ℕ × List (Bytes × Bytes))
  pub scan_prefix : Bytes → M State (ℕ × List (Bytes × Bytes))
  pub begin_batch : M State Bool
  pub put_to_batch : Bytes → Bytes → M State (Unit {0})
  pub delete_from_batch : Bytes → M State (Unit {0})
  pub commit_batch : M State Bool
  pub rollback_batch : M State (Unit {0})
  -- the virtual destructor
  pub destroy : M State (Unit {0})
