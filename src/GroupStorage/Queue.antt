-- ===== src/GroupStorage/Queue.antt =====
-- What `Save` and `Load` keep for a group, seen from outside: the list of the values that were saved.
pub mod Blocks
pub mod Reading
pub mod Putting
pub mod Creating
pub mod Fifo
pub mod Runs
pub mod Opening
pub mod Consuming
pub mod Acknowledging
pub mod Choosing
pub mod Marking
pub mod Waiting
pub mod Delivering
pub mod Batches
pub mod Restarting
pub mod Slices
pub mod Cursors
pub mod Skipping
pub mod Streams
use durastash.Prelude.{
  ℕ, ◌+◌, ◌-◌, ◌*◌, ◌≤◌, ◌<◌, ◌≡◌, ◌≢◌, Bool, true, false, Option, none, some, List, Bytes, ℤ, pos,
  length, ltb, get_or, if◌then◌else◌, [],
}
use durastash.Prelude.Text.{starts_with, is_empty}
use durastash.Contents.{Contents}
use durastash.Storage.Contract.{StorageLaws}
use durastash.Maps.{find}
use durastash.Types.{BatchMetadata, batch_metadata_from_json}
use durastash.Env.{Env}
use durastash.Ulid.{is_valid}
use durastash.BatchManager.{batch_prefix, make_batch_metadata_key, make_data_key, is_pending}
use durastash.GroupStorage.State.{GroupState}
use durastash.GroupStorage.Saving.{batch_key_of}
use durastash.GroupStorage.Counters.{given}

module _ (e : Env) (st : StorageLaws e.storage) (g sid : Bytes) where
  abbrev pub contents : GroupState e → Contents
  contents s = st.contents s.sessions.world.store

  -- The values `vs` were saved for the group, in `count` batches of `default_batch_size` numbers each.
  -- The first `gone` batches have been acknowledged; the state `s` holds the others, of which the last
  -- may have room. Nothing else is stored as a batch of the session.
  pub record Stored (gone : ℕ) (vs : List Bytes) (s : GroupState e) : Type 0 where
    pub ready : st.Ready s.sessions.world.store
    pub free : s.locked ≡ false
    pub known : find g s.group_sessions ≡ some sid
    pub live : is_empty sid ≡ false
    pub set : s.batches.storage_set ≡ true
    pub sized : 0 < s.default_batch_size
    pub counted : given e (find g s.group_sequence_counters) ≡ pos (length vs)
    pub count : ℕ
    pub batch : ℕ → BatchMetadata
    pub filled : length vs ≤ count * s.default_batch_size
    pub kept : gone ≤ count
    pub needed : count * s.default_batch_size ≤ length vs + s.default_batch_size
    -- the batches have their numbers in turn, and identifiers of their own
    pub begins :
        (i : ℕ)
        → (gone ≤ i) × (i < count)
        → (batch i).sequence_start ≡ pos (i * s.default_batch_size)
    pub ends :
        (i : ℕ)
        → (gone ≤ i) × (i < count)
        → (batch i).sequence_end ≡ pos (i * s.default_batch_size + s.default_batch_size - 1)
    pub valid : (i : ℕ) → (gone ≤ i) × (i < count) → is_valid (batch i).batch_id ≡ true
    pub distinct :
        (i j : ℕ)
        → (gone ≤ i) × (i < count)
        → (gone ≤ j) × (j < count)
        → (batch i).batch_id ≡ (batch j).batch_id
        → i ≡ j
    -- they are what is stored under the prefix of the metadata
    pub there :
        (i : ℕ)
        → (gone ≤ i) × (i < count)
        → (v : Bytes) × (contents s (make_batch_metadata_key g sid (batch i).batch_id) ≡ some v)
          × (batch_metadata_from_json e.json v ≡ some (batch i))
    pub only :
        (k v : Bytes)
        → starts_with (batch_prefix g sid) k ≡ true
        → contents s k ≡ some v
        → (i : ℕ) × ((gone ≤ i) × (i < count))
          × (k ≡ make_batch_metadata_key g sid (batch i).batch_id)
    -- they are the current batches of their ranges, and no later range has one
    pub current :
        (i : ℕ)
        → (gone ≤ i) × (i < count)
        → find (batch_key_of g (pos (i * s.default_batch_size))) s.group_current_batch_ids
          ≡ some (batch i).batch_id
    pub unopened :
        (i : ℕ)
        → count ≤ i
        → find (batch_key_of g (pos (i * s.default_batch_size))) s.group_current_batch_ids ≡ none
    -- each value is under the data key of its number, and no later number has one
    pub values :
        (i m : ℕ)
        → (gone ≤ i) × (i < count)
        → i * s.default_batch_size ≤ m
        → m < i * s.default_batch_size + s.default_batch_size
        → contents s (make_data_key g sid (batch i).batch_id (pos m))
          ≡ (if ltb m (length vs) then some (get_or vs m []) else none)

  -- More batches than before: the old ones stay, and the new ones are pending.
  pub record Grows {gone : ℕ} {vs us : List Bytes} {s t : GroupState e} (q : Stored gone vs s)
      (q' : Stored gone us t) : Type 0 where
    pub longer : q.count ≤ q'.count
    pub old : (i : ℕ) → (gone ≤ i) × (i < q.count) → q'.batch i ≡ q.batch i
    pub new : (i : ℕ) → (q.count ≤ i) × (i < q'.count) → is_pending (q'.batch i).status ≡ true

  -- The next value has a place: where the last batch has room, it was not acknowledged.
  pub record Queue (gone : ℕ) (vs : List Bytes) (s : GroupState e) : Type 0 where
    pub stored : Stored gone vs s
    pub has_last : length vs < stored.count * s.default_batch_size → gone < stored.count
