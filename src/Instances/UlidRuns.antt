-- ===== src/Instances/UlidRuns.antt =====
-- The theorems on identifiers, stored records and key numbers, at concrete inputs.
use durastash.Prelude.{ℕ, ◌≡◌, ◌+◌, ◌*◌, ◌/◌, ◌%◌, ◌^◌, ◌≤◌, arith, true, some, Bytes, codes, pos}
use durastash.Prelude.Text.{bytes_lt}
use durastash.Types.{batch_metadata_from_json, batch_metadata_to_json}
use durastash.Types.RoundTrip.{stored_loaded_at, batch_metadata_round_trip}
use durastash.Ulid.{generate_at, extract_timestamp, is_valid}
use durastash.Ulid.Validity.{is_valid-generate_at}
use durastash.Ulid.RoundTrip.{extract_timestamp-generate_at}
use durastash.Ulid.Order.{generate_at_mono}
use durastash.GroupStorage.Saving.{batch_start_of, batch_end_of}
use durastash.GroupStorage.Ranges.{batch_range_lem}
use durastash.Instances.Counting.{counting, counting-IsInRange}
use durastash.Instances.Objects.{plain_objects, plain_objects_laws}
use durastash.Instances.Memory.{metadata}

abbrev identifier : Bytes
identifier = codes "01ARZ3NDEKTSV4RRFFQ69G5FAV"

extract_timestamp-generate_at_example :
    extract_timestamp (generate_at counting 1700000000000 5).0 ≡ 1700000000000 % 2 ^ 50
extract_timestamp-generate_at_example =
    extract_timestamp-generate_at counting counting-IsInRange 1700000000000 5

generate_at_mono_example :
    bytes_lt (generate_at counting 1700000000000 9).0 (generate_at counting 1700000000001 5).0
    ≡ true
generate_at_mono_example =
    generate_at_mono counting 1700000000000 1700000000001 9 5 (omega arith) (omega arith)

is_valid-generate_at_example : is_valid (generate_at counting 1700000000000 5).0 ≡ true
is_valid-generate_at_example = is_valid-generate_at counting counting-IsInRange 1700000000000 5

batch_metadata_round_trip_example :
    batch_metadata_from_json plain_objects (batch_metadata_to_json plain_objects metadata)
    ≡ some (stored_loaded_at metadata)
batch_metadata_round_trip_example =
    batch_metadata_round_trip plain_objects plain_objects_laws metadata

batch_range_lem_example :
    (a : ℕ) × (b : ℕ) × (batch_start_of (pos 250) 100 ≡ pos a)
    × (batch_end_of (pos a) 100 ≡ pos b)
    × (a ≡ 250 / 100 * 100)
    × (a ≤ 250)
    × (250 ≤ b)
    × (b + 1 ≡ a + 100)
batch_range_lem_example = batch_range_lem 250 100 (omega arith) (omega arith)
