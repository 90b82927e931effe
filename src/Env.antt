-- ===== src/Env.antt =====
-- What the managers are built over: the storage behind `IStorage`, the JSON library, and the host.
-- A call of a manager changes the storage and moves the host's clock and generator on.
use durastash.Prelude.{ℕ, Bytes}
use durastash.Outcome.{ok, M}
use durastash.Storage.{IStorage}
use durastash.Json.{Jsonable}
use durastash.System.{System}
use durastash.Ulid

pub record Env : Type 1 where
  pub storage : IStorage
  pub json : Jsonable
  pub system : System

pub record World (e : Env) : Type 0 where
  pub store : e.storage.State
  pub host : e.system.Host

module _ (e : Env) where
  -- A call `storage_->f(…)`.
  unfoldable pub on_store : {A : Type 0} → M e.storage.State A → M (World e) A
  on_store m w = let (r, s) = m w.store in (r, record w { store = s })

  unfoldable pub on_host : {A : Type 0} → (e.system.Host → A × e.system.Host) → M (World e) A
  on_host f w = let (a, h) = f w.host in (ok a, record w { host = h })

  -- `ULID::Generate()`
  unfoldable pub generate : M (World e) Bytes
  unfolding on_host
  generate = on_host (Ulid.generate e.system)

  -- `ULID::Now()`
  unfoldable pub now : M (World e) ℕ
  unfolding on_host
  now = on_host (Ulid.now e.system)
