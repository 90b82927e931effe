-- ===== src/Instances/SortedEntries.antt =====
-- The entries of a log of writes in the order of their keys, as an iterator passes them.
use durastash.Prelude.{
  ◌≡◌, ◌↔◌, inl, inr, refl, ap, ap, sym, ◌∙◌, arith, true, false, Option, some, List, [], ◌∷◌,
  Bytes, if◌then◌else◌, Bool-cases,
}
use durastash.Prelude.Text.{bytes_eq, bytes_lt, bytes_eq_iff, bytes_eq_ne}
use durastash.Prelude.Order.{bytes_lt_trans, bytes_lt_irrefl, bytes_lt_total}
use durastash.Contents.{Elem, IsAbove, IsAscending}
use durastash.Maps.{find}
use durastash.RocksDbStorage.Ranges.{IsAbove-Elem, IsAbove-IsAscending}

abbrev pub Entries : Type 0
Entries = List (Bytes × Bytes)

unfoldable pub put_sorted : Bytes → Bytes → Entries → Entries
put_sorted k v [] = (k, v) ∷ []
put_sorted k v ((j, w) ∷ l) =
    let rest = put_sorted k v l in
    if bytes_eq k j then (k, v) ∷ l else if bytes_lt k j then (k, v) ∷ (j, w) ∷ l else (j, w) ∷ rest

-- The entries of a log in the order of their keys.
unfoldable pub entries : Entries → Entries
unfolding put_sorted
entries [] = []
entries ((k, v) ∷ l) = put_sorted k v (entries l)

unfoldable pub from_key : Bytes → Entries → Entries
from_key start [] = []
from_key start ((k, v) ∷ l) =
    let rest = from_key start l in if bytes_lt k start then rest else (k, v) ∷ rest

find-put_sorted :
    (j k v : Bytes) (l : Entries)
    → find j (put_sorted k v l) ≡ (if bytes_eq k j then some v else find j l)
unfolding find put_sorted
find-put_sorted j k v [] = refl
find-put_sorted j k v ((i, w) ∷ l) =
    ground (arith, bytes_eq_iff k i, bytes_eq_iff k j, bytes_eq_iff i j, find-put_sorted j k v l)

find-entries : (j : Bytes) (d : Entries) → find j (entries d) ≡ find j d
unfolding entries find
find-entries j [] = refl
find-entries j ((k, v) ∷ d) =
    find-put_sorted j k v (entries d)
    ∙ ap (λ (o : Option Bytes). if bytes_eq k j then some v else o) (find-entries j d)

put_sorted-IsAbove :
    (i k v : Bytes) (l : Entries) → bytes_lt i k ≡ true → IsAbove i l → IsAbove i (put_sorted k v l)
unfolding put_sorted
put_sorted-IsAbove i k v [] h hs = (h, tt)
put_sorted-IsAbove i k v ((j, w) ∷ l) h (hj, hs) = elim (Bool-cases (bytes_eq k j)) [
  | inl same ↦ rw same (h, rw ((bytes_eq_iff k j).0 same) hs)
  | inr other ↦ elim (Bool-cases (bytes_lt k j)) [
    | inl below ↦ rw (other, below) (h, (below, hs))
    | inr above ↦
        rw (other, above) (hj, put_sorted-IsAbove j k v l (bytes_lt_total k j other above) hs)
  ]
]

put_sorted-IsAscending :
    (k v : Bytes) (l : Entries) → IsAscending l → IsAscending (put_sorted k v l)
unfolding put_sorted
put_sorted-IsAscending k v [] h = tt
put_sorted-IsAscending k v ((j, w) ∷ l) h = elim (Bool-cases (bytes_eq k j)) [
  | inl same ↦ rw same (rw ((bytes_eq_iff k j).0 same) h)
  | inr other ↦ elim (Bool-cases (bytes_lt k j)) [
    | inl below ↦ rw (other, below) (below, h)
    | inr above ↦ rw (other, above) (put_sorted-IsAbove j k v l (bytes_lt_total k j other above) h)
  ]
]

pub entries-IsAscending : (d : Entries) → IsAscending (entries d)
unfolding entries
entries-IsAscending [] = tt
entries-IsAscending ((k, v) ∷ d) = put_sorted-IsAscending k v (entries d) (entries-IsAscending d)

from_key-IsAbove : (start i : Bytes) (l : Entries) → IsAbove i l → IsAbove i (from_key start l)
unfolding from_key
from_key-IsAbove start i [] h = tt
from_key-IsAbove start i ((k, v) ∷ l) (h, hs) = elim (Bool-cases (bytes_lt k start)) [
  | inl out ↦ rw out (from_key-IsAbove start i l (weaken l hs))
  | inr stay ↦ rw stay (h, from_key-IsAbove start k l hs)
]
  where
    weaken : (m : Entries) → IsAbove k m → IsAbove i m
    weaken [] x = tt
    weaken ((j, w) ∷ m) (x, xs) = (bytes_lt_trans i k j h x, xs)

pub from_key-IsAscending :
    (start : Bytes) (l : Entries) → IsAscending l → IsAscending (from_key start l)
unfolding from_key
from_key-IsAscending start [] h = tt
from_key-IsAscending start ((k, v) ∷ l) h = elim (Bool-cases (bytes_lt k start)) [
  | inl out ↦ rw out (from_key-IsAscending start l (tail l h))
  | inr stay ↦ rw stay (from_key-IsAbove start k l h)
]
  where
    tail : (m : Entries) → IsAbove k m → IsAscending m
    tail [] x = tt
    tail ((j, w) ∷ m) x = x.1

Elem-find : (k v : Bytes) (l : Entries) → IsAscending l → Elem (k, v) l → find k l ≡ some v
unfolding find
Elem-find k v [] h x = elim x [ ]
Elem-find k v ((j, w) ∷ l) h (inl p) =
    let same : k ≡ j = ap (λ (t : Bytes × Bytes). t.0) p in
    let value : v ≡ w = ap (λ (t : Bytes × Bytes). t.1) p in ground (arith, bytes_eq_iff j k)
Elem-find k v ((j, w) ∷ l) h (inr x) =
    let later : bytes_lt j k ≡ true = IsAbove-Elem j l k v h x in
    let other : bytes_eq j k ≡ false =
      bytes_eq_ne j k (λ q. cc (later, ap (bytes_lt j) (sym q), bytes_lt_irrefl j)) in
    rw other (Elem-find k v l (IsAbove-IsAscending j l h) x)

find-Elem : (k v : Bytes) (l : Entries) → find k l ≡ some v → Elem (k, v) l
unfolding find
find-Elem k v [] h = cc
find-Elem k v ((j, w) ∷ l) h = elim (Bool-cases (bytes_eq j k)) [
  | inl same ↦ inl (here ((bytes_eq_iff j k).0 same) (ground arith))
  | inr other ↦ inr (find-Elem k v l (ground arith))
]
  where
    here : j ≡ k → w ≡ v → ◌≡◌ {A = Bytes × Bytes} (k, v) (j, w)
    here p q = cc

from_key-Elem :
    (start : Bytes) (l : Entries) (k v : Bytes)
    → Elem (k, v) (from_key start l)
    → (bytes_lt k start ≡ false) × Elem (k, v) l
unfolding from_key
from_key-Elem start [] k v x = elim x [ ]
from_key-Elem start ((j, w) ∷ l) k v x = elim (Bool-cases (bytes_lt j start)) [
  | inl out ↦ let (a, b) = from_key-Elem start l k v (rw out at x) in (a, inr b)
  | inr stay ↦ kept stay (from_key-Elem start l k v) (rw stay at x)
]
  where
    kept :
        bytes_lt j start ≡ false
        → (Elem (k, v) (from_key start l) → (bytes_lt k start ≡ false) × Elem (k, v) l)
        → Elem (k, v) ((j, w) ∷ from_key start l)
        → (bytes_lt k start ≡ false) × Elem (k, v) ((j, w) ∷ l)
    kept stay ih (inl p) = (ap (λ (t : Bytes × Bytes). bytes_lt t.0 start) p ∙ stay, inl p)
    kept stay ih (inr y) = ((ih y).0, inr (ih y).1)

Elem-from_key :
    (start : Bytes) (l : Entries) (k v : Bytes)
    → bytes_lt k start ≡ false
    → Elem (k, v) l
    → Elem (k, v) (from_key start l)
unfolding from_key
Elem-from_key start [] k v h x = elim x [ ]
Elem-from_key start ((j, w) ∷ l) k v h (inl p) =
    let stay : bytes_lt j start ≡ false =
      ap (λ (t : Bytes × Bytes). bytes_lt t.0 start) (sym p) ∙ h in
    rw stay (inl p)
Elem-from_key start ((j, w) ∷ l) k v h (inr x) = elim (Bool-cases (bytes_lt j start)) [
  | inl out ↦ rw out (Elem-from_key start l k v h x)
  | inr stay ↦ rw stay (inr (Elem-from_key start l k v h x))
]

pub seek_found :
    (start : Bytes) (d : Entries) (k v : Bytes)
    → Elem (k, v) (from_key start (entries d)) ↔ ((bytes_lt k start ≡ false) × (find k d ≡ some v))
seek_found start d k v = (
  λ x.
      let (above, y) = from_key-Elem start (entries d) k v x in
      (above, sym (find-entries k d) ∙ Elem-find k v (entries d) (entries-IsAscending d) y),
  λ (above, g).
      Elem-from_key start (entries d) k v above (find-Elem k v (entries d) (find-entries k d ∙ g)),
)
