-- ===== src/Instances/BatchRuns.antt =====
-- The theorems on batches, over a database in memory that holds one batch.
use durastash.Prelude.Int.{i64_limit}
use durastash.Prelude.{◌-◌, length, ◌≡◌, ◌⊎◌, ◌≢◌, refl, arith, some, [], ◌∷◌, Bytes, pos}
use durastash.Prelude.Text.{bytes_eq, starts_with}
use durastash.Maps.{find}
use durastash.Errors.{json_error}
use durastash.Outcome.{ok, throw}
use durastash.Types.{
  loaded, pending, BatchMetadata, batch_metadata_to_json, batch_metadata_from_json,
}
use durastash.Types.RoundTrip.{stored_loaded_at, batch_metadata_round_trip}
use durastash.Env.{World}
use durastash.BatchManager.{
  make_batch_metadata_key, batch_prefix, create_batch, mark_batch_as_loaded, acknowledge_batch,
  get_loadable_batches, find_batch_id_by_sequence_id, data_keys_loop,
}
use durastash.BatchManager.Metadata.{Created, create_batch_lem, Marked, mark_batch_as_loaded_lem}
use durastash.BatchManager.DataKeys.{keys_of, data_keys_loop_lem}
use durastash.BatchManager.Deleting.{Deleted, acknowledge_batch_lem}
use durastash.BatchManager.Lookup.{IsStored, find_batch_id_by_sequence_id_lem}
use durastash.BatchManager.Loadable.{Loadable, get_loadable_batches_broken}
use durastash.Instances.Objects.{parse_fields, plain_objects, plain_objects_laws}
use durastash.Instances.Memory.{memory_env, laws, world, bm, group, session, batch, metadata}

abbrev key : Bytes
key = make_batch_metadata_key group session batch

abbrev text : BatchMetadata → Bytes
text m = batch_metadata_to_json plain_objects m

abbrev in_use : BatchMetadata
in_use = record metadata { status = loaded; loaded_at = pos 9 }

abbrev holding : Bytes → World memory_env
holding json = world ((key, json) ∷ [])

read_back : batch_metadata_from_json plain_objects (text metadata) ≡ some metadata
unfolding stored_loaded_at
read_back = batch_metadata_round_trip plain_objects plain_objects_laws metadata

read_in_use : batch_metadata_from_json plain_objects (text in_use) ≡ some in_use
unfolding stored_loaded_at
read_in_use = batch_metadata_round_trip plain_objects plain_objects_laws in_use

found : (json : Bytes) → find key ((key, json) ∷ []) ≡ some json
unfolding find make_batch_metadata_key bytes_eq
found json = refl

create_batch_lem_example :
    Created memory_env laws plain_objects_laws bm refl group session
      (pos 0)
      (pos 99)
      (world [])
      (create_batch memory_env bm group session (pos 0) (pos 99) (world []))
create_batch_lem_example =
    create_batch_lem memory_env laws plain_objects_laws bm refl group session (pos 0) (pos 99)
      (world []) (refl, refl)

pending-ne-loaded : pending ≢ loaded
pending-ne-loaded h = cc

mark_batch_as_loaded_lem_example :
    Marked memory_env laws plain_objects_laws bm refl group session batch metadata
      (holding (text metadata))
      (mark_batch_as_loaded memory_env bm group session batch (holding (text metadata)))
mark_batch_as_loaded_lem_example =
    mark_batch_as_loaded_lem memory_env laws plain_objects_laws bm refl group session batch
      (text metadata) metadata (holding (text metadata)) (refl, refl) (found (text metadata))
      read_back pending-ne-loaded

acknowledge_batch_lem_example :
    Deleted memory_env laws bm plain_objects_laws refl group session batch 0 1
      (holding (text metadata))
      (acknowledge_batch memory_env bm group session batch (holding (text metadata)))
acknowledge_batch_lem_example =
    acknowledge_batch_lem memory_env laws bm plain_objects_laws refl group session batch 0 1
      (text metadata) metadata (holding (text metadata)) (refl, refl) refl (found (text metadata))
      read_back refl refl (omega arith)

get_loadable_batches_broken_example :
    get_loadable_batches memory_env bm group session 1 (holding []) ≡ (throw json_error, holding [])
unfolding batch_metadata_from_json starts_with make_batch_metadata_key batch_prefix parse_fields
get_loadable_batches_broken_example =
    get_loadable_batches_broken memory_env laws bm refl group session 1 (holding []) key []
      (refl, refl) refl (found []) refl

find_batch_id_by_sequence_id_lem_example :
    ((k : Bytes) × (v : Bytes) × (m : BatchMetadata) × IsStored memory_env laws bm refl group
        session
        (holding (text metadata))
        (pos 1)
        k
        v
        m
      × (find_batch_id_by_sequence_id memory_env bm group session (pos 1) (holding (text metadata))
          ≡ (ok m.batch_id, holding (text metadata))))
    ⊎ (((k v : Bytes) (m : BatchMetadata)
          → ¬ IsStored memory_env laws bm refl group session
              (holding (text metadata))
              (pos 1)
              k
              v
              m)
        × (find_batch_id_by_sequence_id memory_env bm group session
              (pos 1)
              (holding (text metadata))
            ≡ (ok [], holding (text metadata))))
find_batch_id_by_sequence_id_lem_example =
    find_batch_id_by_sequence_id_lem memory_env laws bm refl group session (pos 1)
      (holding (text metadata)) (refl, refl)

data_keys_loop_lem_example :
    (data_keys_loop 5 group session batch (pos 7) (pos 9) ≡ keys_of group session batch 7 3)
    × (length (data_keys_loop 5 group session batch (pos 7) (pos (i64_limit - 1))) ≡ 5)
data_keys_loop_lem_example =
    data_keys_loop_lem group session batch 5 7 9 (omega arith) (omega arith) (omega arith)
