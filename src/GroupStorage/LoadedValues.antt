-- ===== src/GroupStorage/LoadedValues.antt =====
-- The values that `Load` returns, number by number.
use mathlib.Core.List.{Perm}
use durastash.Prelude.{
  ℕ, ◌+◌, ◌-◌, ◌<◌, ◌≡◌, ◌↔◌, some, List, [], ◌∷◌, ◌++◌, Bytes, ℤ, pos, true, false, false,
}
use durastash.Prelude.Text.{starts_with}
use durastash.Prelude.Int.{i64_limit, pos_part}
use durastash.Contents.{Contents, Elem}
use durastash.Outcome.{ok}
use durastash.Storage.Contract.{StorageLaws}
use durastash.Types.{BatchMetadata, batch_metadata_from_json}
use durastash.Sorting.Ordered.{IsSorted}
use durastash.Env.{Env}
use durastash.BatchManager.{batch_prefix}
use durastash.BatchManager.DataKeys.{keys_of}
use durastash.GroupStorage.State.{GroupState}
use durastash.GroupStorage.Loading.{load}
use durastash.GroupStorage.Loads.{values_of, contents}

-- The range of a batch ends below the largest `int64_t`.
abbrev pub IsBounded : BatchMetadata → Type 0
IsBounded m =
    (a : ℕ) × (b : ℕ) × (m.sequence_start ≡ pos a) × (m.sequence_end ≡ pos b) × (b + 1 < i64_limit)

-- The values of a batch from its first number up to its last one.
unfoldable pub numbered_values : Contents → Bytes → Bytes → List (ℤ × BatchMetadata) → List Bytes
numbered_values c g sid [] = []
numbered_values c g sid ((start, m) ∷ rest) =
    values_of c (
      keys_of g sid m.batch_id (pos_part m.sequence_start)
        (pos_part m.sequence_end + 1 - pos_part m.sequence_start))
    ++ numbered_values c g sid rest

module _ (e : Env) (st : StorageLaws e.storage) (g sid : Bytes) where
  -- What `Load` returns: the values of all batches of the session whose metadata can be read, in the
  -- order of their first numbers, each batch from its first number up to its last one.
  pub record InOrder (s : GroupState e) : Type 0 where
    pub batches : List (ℤ × BatchMetadata)
    pub returns : load e g s ≡ (ok (numbered_values (contents e st g sid s) g sid batches), s)
    pub in_order : IsSorted (λ (b : ℤ × BatchMetadata). b.0) batches
    pub all : List (ℤ × BatchMetadata)
    pub permuted : Perm batches all
    pub all_iff :
        (start : ℤ) (m : BatchMetadata)
        → Elem (start, m) all ↔ (
            (k : Bytes) × (v : Bytes) × (starts_with (batch_prefix g sid) k ≡ true)
            × (contents e st g sid s k ≡ some v)
            × (batch_metadata_from_json e.json v ≡ some m)
            × (m.sequence_start ≡ start))
