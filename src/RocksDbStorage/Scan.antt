-- ===== src/RocksDbStorage/Scan.antt =====
-- The scans return exactly the entries of their range, in the order of the keys.
use durastash.Prelude.{
  ℕ, zero, suc, ◌+◌, ◌≡◌, ◌↔◌, refl, ap, ap, arith, true, false, some, [], ◌∷◌, Bytes, length, take,
}
use durastash.Prelude.Text.{bytes_lt, bytes_le, starts_with}
use durastash.Prelude.Order.{starts_with-between, not-lt_of_starts_with, bytes_le_of_lt}
use durastash.Contents.{Elem, IsAscending}
use durastash.Outcome.{ok}
use durastash.RocksDb.{RocksDb, RocksDbLaws}
use durastash.Storage.Contract.{IsScan}
use durastash.RocksDbStorage.{RocksState, is_open, scan_loop, scan_prefix_loop, scan, scan_prefix}
use durastash.RocksDbStorage.Ranges.{
  Entries, take_while, take_while-IsAscending, take_while_sound, take_while_complete,
}

scan_prefix_loop-take_while :
    (p : Bytes) (n : ℕ) (l : Entries)
    → scan_prefix_loop p n l
      ≡ (n + length (take_while (starts_with p) l), take_while (starts_with p) l)
unfolding scan_prefix_loop
scan_prefix_loop-take_while p n [] = ap (λ (t : ℕ). (t, [])) (omega arith)
scan_prefix_loop-take_while p n ((k, v) ∷ l) =
    ground (arith, scan_prefix_loop-take_while p (n + 1) l)

scan_loop-take_while :
    (e : Bytes) (n : ℕ) (l : Entries)
    → scan_loop e 0 n l
      ≡ (n + length (take_while (λ k. bytes_le k e) l), take_while (λ k. bytes_le k e) l)
unfolding scan_loop
scan_loop-take_while e n [] = ap (λ (t : ℕ). (t, [])) (omega arith)
scan_loop-take_while e n ((k, v) ∷ l) = ground (arith, scan_loop-take_while e (n + 1) l)

-- With a limit the loop stops after as many entries as are left of it.
scan_loop-take :
    (e : Bytes) (limit room n : ℕ) (l : Entries)
    → limit ≡ n + suc room
    → (scan_loop e limit n l).1 ≡ take (suc room) (scan_loop e 0 n l).1
unfolding scan_loop
scan_loop-take e limit room n [] h = refl
scan_loop-take e limit zero n ((k, v) ∷ l) h = ground arith
scan_loop-take e limit (suc room) n ((k, v) ∷ l) h =
    ground (arith, scan_loop-take e limit room (n + 1) l (omega arith))

scan_loop-count :
    (e : Bytes) (limit n : ℕ) (l : Entries)
    → (scan_loop e limit n l).0 ≡ n + length (scan_loop e limit n l).1
unfolding scan_loop
scan_loop-count e limit n [] = omega arith
scan_loop-count e limit n ((k, v) ∷ l) = ground (arith, scan_loop-count e limit (n + 1) l)

module _ (db : RocksDb) (laws : RocksDbLaws db) (s : RocksState db) (free : s.locked ≡ false)
    (opened : is_open db s ≡ true) where
  open db use {db_get, seek}

  -- On an open storage with its mutex free, `ScanPrefix` returns exactly the entries whose keys
  -- start with the prefix, in the order of the keys, with their number, and changes nothing.
  pub scan_prefix_exact :
      (p : Bytes)
      → (l : Entries) × (scan_prefix db p s ≡ (ok (length l, l), s))
        × IsScan (λ k. db_get k s.disk) p l
  unfolding scan_prefix
  scan_prefix_exact p = (
    take_while (starts_with p) (seek p s.disk),
    ground (arith, scan_prefix_loop-take_while p 0 (seek p s.disk)),
    record {
      elem_iff = λ k v. (found k v, kept k v);
      ascending = take_while-IsAscending (starts_with p) _ (laws.seek_ascending p s.disk);
    },
  )
    where
      found :
          (k v : Bytes)
          → Elem (k, v) (take_while (starts_with p) (seek p s.disk))
          → (starts_with p k ≡ true) × (db_get k s.disk ≡ some v)
      found k v m =
          let (there, passed) = take_while_sound (starts_with p) (seek p s.disk) k v m in
          (passed, ((laws.seek_iff p s.disk k v).0 there).1)

      kept :
          (k v : Bytes)
          → (starts_with p k ≡ true) × (db_get k s.disk ≡ some v)
          → Elem (k, v) (take_while (starts_with p) (seek p s.disk))
      kept k v (t, g) =
          take_while_complete (starts_with p) (seek p s.disk) k v
            (λ j w m lt. starts_with-between p j k ((laws.seek_iff p s.disk j w).0 m).0 lt t)
            (laws.seek_ascending p s.disk)
            ((laws.seek_iff p s.disk k v).1 (not-lt_of_starts_with p k t, g)) t

  -- On an open storage with its mutex free, `Scan` without a limit returns exactly the entries
  -- from the start key to the end key, both included, in the order of the keys, with their number,
  -- and changes nothing.
  pub scan_exact :
      (start end : Bytes)
      → (l : Entries) × (scan db start end 0 s ≡ (ok (length l, l), s))
        × IsAscending l
        × ((k v : Bytes)
            → Elem (k, v) l
              ↔ ((bytes_lt k start ≡ false) × (bytes_le k end ≡ true) × (db_get k s.disk ≡ some v)))
  unfolding scan
  scan_exact start end = (
    take_while (λ k. bytes_le k end) (seek start s.disk),
    ground (arith, scan_loop-take_while end 0 (seek start s.disk)),
    take_while-IsAscending (λ k. bytes_le k end) _ (laws.seek_ascending start s.disk),
    λ k v. (found k v, kept k v),
  )
    where
      found :
          (k v : Bytes)
          → Elem (k, v) (take_while (λ j. bytes_le j end) (seek start s.disk))
          → (bytes_lt k start ≡ false) × (bytes_le k end ≡ true) × (db_get k s.disk ≡ some v)
      found k v m =
          let (there, passed) = take_while_sound (λ j. bytes_le j end) (seek start s.disk) k v m in
          let (above, g) = (laws.seek_iff start s.disk k v).0 there in (above, passed, g)

      kept :
          (k v : Bytes)
          → (bytes_lt k start ≡ false) × (bytes_le k end ≡ true) × (db_get k s.disk ≡ some v)
          → Elem (k, v) (take_while (λ j. bytes_le j end) (seek start s.disk))
      kept k v (above, t, g) =
          take_while_complete (λ j. bytes_le j end) (seek start s.disk) k v
            (λ j w m lt. bytes_le_of_lt j k end lt t) (laws.seek_ascending start s.disk)
            ((laws.seek_iff start s.disk k v).1 (above, g)) t

  -- On an open storage with its mutex free, `Scan` with a limit above 0 returns the first entries
  -- of the scan without one, up to the limit, and the number of them.
  pub scan_limit :
      (start end : Bytes) (limit : ℕ)
      → (l : Entries) × (scan db start end 0 s ≡ (ok (length l, l), s))
        × (scan db start end (suc limit) s
            ≡ (ok (length (take (suc limit) l), take (suc limit) l), s))
  unfolding scan
  scan_limit start end limit = (
    take_while (λ k. bytes_le k end) (seek start s.disk),
    ground (arith, scan_loop-take_while end 0 (seek start s.disk)),
    ground (
      arith,
      scan_loop-take_while end 0 (seek start s.disk),
      scan_loop-count end (suc limit) 0 (seek start s.disk),
      scan_loop-take end (suc limit) limit 0 (seek start s.disk),
    ),
  )
