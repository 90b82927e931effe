-- ===== src/Instances/Database.antt =====
-- A database in memory: the log of its writes, the newest first.
use durastash.Prelude.{
  ◌≡◌, refl, ap, ap, ◌∙◌, Bool, true, Option, none, some, List, [], ◌∷◌, ◌++◌, Bytes, if◌then◌else◌,
}
use durastash.Prelude.Text.{bytes_eq}
use durastash.Contents.{Contents, Write, put, delete, apply_write, apply_writes}
use durastash.Maps.{find, erase, find-erase}
use durastash.RocksDb.{RocksDb, RocksDbLaws}
use durastash.Instances.SortedEntries.{
  Entries, entries, from_key, seek_found, entries-IsAscending, from_key-IsAscending,
}

unfoldable pub write_all : List Write → Entries → Entries
unfolding erase
write_all [] d = d
write_all (put k v ∷ ws) d = write_all ws ((k, v) ∷ d)
write_all (delete k ∷ ws) d = write_all ws (erase k d)

abbrev pub memory_db : RocksDb
memory_db = record {
  Disk = Entries;
  open_db = λ path d. (true, d);
  close_db = λ d. d;
  db_put = λ k v d. (true, (k, v) ∷ d);
  db_get = find;
  db_delete = λ k d. (true, erase k d);
  WriteBatch = List Write;
  new_batch = [];
  batch_put = λ k v b. b ++ (put k v ∷ []);
  batch_delete = λ k b. b ++ (delete k ∷ []);
  db_write = λ b d. (true, write_all b d);
  seek = λ start d. from_key start (entries d);
}

apply_writes_cong :
    (ws : List Write) (c d : Contents)
    → ((j : Bytes) → c j ≡ d j)
    → (j : Bytes) → apply_writes ws c j ≡ apply_writes ws d j
apply_writes_cong [] c d h j = h j
apply_writes_cong (put k v ∷ ws) c d h j =
    apply_writes_cong ws (apply_write (put k v) c) (apply_write (put k v) d)
      (λ i. ap (λ (o : Option Bytes). if bytes_eq k i then some v else o) (h i)) j
apply_writes_cong (delete k ∷ ws) c d h j =
    apply_writes_cong ws (apply_write (delete k) c) (apply_write (delete k) d)
      (λ i. ap (λ (o : Option Bytes). if bytes_eq k i then none else o) (h i)) j

pub write_all_lem :
    (ws : List Write) (d : Entries) (j : Bytes)
    → find j (write_all ws d) ≡ apply_writes ws (λ k. find k d) j
unfolding write_all find
write_all_lem [] d j = refl
write_all_lem (put k v ∷ ws) d j =
    write_all_lem ws ((k, v) ∷ d) j ∙ apply_writes_cong ws _ _ (λ i. refl) j
write_all_lem (delete k ∷ ws) d j =
    write_all_lem ws (erase k d) j ∙ apply_writes_cong ws _ _ (λ i. find-erase i k d) j

pub find_put :
    (k v : Bytes) (d : Entries)
    → ◌≡◌ {A = Bool} true true
    → (j : Bytes) → find j ((k, v) ∷ d) ≡ (if bytes_eq k j then some v else find j d)
unfolding find
find_put k v d done j = refl

-- The database in memory keeps what RocksDB promises.
abbrev pub memory_db_laws : RocksDbLaws memory_db
memory_db_laws = record {
  put_ok = find_put;
  delete_ok = λ k d done j. find-erase j k d;
  updates = λ b. b;
  updates-new = refl;
  updates-put = λ k v b. refl;
  updates-delete = λ k b. refl;
  write_ok = λ b d done j. write_all_lem b d j;
  seek_iff = seek_found;
  seek_ascending = λ start d. from_key-IsAscending start (entries d) (entries-IsAscending d);
}
