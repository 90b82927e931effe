-- ===== src/Contents.antt =====
-- The abstract view of a key-value store: what each key holds, and what a list of writes makes of it.
use durastash.Prelude.{
  ◌≡◌, refl, ◌⊎◌, true, Option, none, some, List, [], ◌∷◌, ◌++◌, Bytes, if◌then◌else◌,
}
use durastash.Prelude.Text.{bytes_eq, bytes_lt}

abbrev pub Contents : Type 0
Contents = Bytes → Option Bytes

pub data Write : Type 0 where
  put : Bytes → Bytes → Write
  delete : Bytes → Write

abbrev pub apply_write : Write → Contents → Contents
apply_write (put k v) c j = if bytes_eq k j then some v else c j
apply_write (delete k) c j = if bytes_eq k j then none else c j

-- The writes in the order in which they were added.
abbrev pub apply_writes : List Write → Contents → Contents
apply_writes [] c = c
apply_writes (w ∷ ws) c = apply_writes ws (apply_write w c)

pub apply_writes-append :
    (ws us : List Write) (c : Contents)
    → apply_writes (ws ++ us) c ≡ apply_writes us (apply_writes ws c)
apply_writes-append [] us c = refl
apply_writes-append (w ∷ ws) us c = apply_writes-append ws us (apply_write w c)

module _ {A : Type 0} where
  -- Membership by position.
  abbrev pub Elem : A → List A → Type 0
  Elem a [] = ⊥
  Elem a (x ∷ xs) = (a ≡ x) ⊎ Elem a xs

-- The keys of a list of entries ascend, all above a given one.
abbrev pub IsAbove : Bytes → List (Bytes × Bytes) → Type 0
IsAbove k [] = Unit {0}
IsAbove k ((j, v) ∷ l) = (bytes_lt k j ≡ true) × IsAbove j l

abbrev pub IsAscending : List (Bytes × Bytes) → Type 0
IsAscending [] = Unit {0}
IsAscending ((k, v) ∷ l) = IsAbove k l
