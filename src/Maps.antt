-- ===== src/Maps.antt =====
-- `std::unordered_map` with string keys, as an association list without order.
use durastash.Prelude.{◌≡◌, refl, arith, Option, none, some, List, [], ◌∷◌, Bytes, if◌then◌else◌}
use durastash.Prelude.Text.{bytes_eq, bytes_eq_iff}

module _ {V : Type 0} where
  -- `find(key)`
  unfoldable pub find : Bytes → List (Bytes × V) → Option V
  find key [] = none
  find key ((k, v) ∷ rest) = if bytes_eq k key then some v else find key rest

  -- `map[key] = value`
  unfoldable pub assign : Bytes → V → List (Bytes × V) → List (Bytes × V)
  assign key value [] = (key, value) ∷ []
  assign key value ((k, v) ∷ rest) =
      if bytes_eq k key then (k, value) ∷ rest else (k, v) ∷ assign key value rest

  -- `erase(key)`
  unfoldable pub erase : Bytes → List (Bytes × V) → List (Bytes × V)
  erase key [] = []
  erase key ((k, v) ∷ rest) =
      let left = erase key rest in if bytes_eq k key then left else (k, v) ∷ left

  pub find-assign :
      (j key : Bytes) (value : V) (m : List (Bytes × V))
      → find j (assign key value m) ≡ (if bytes_eq key j then some value else find j m)
  unfolding find assign
  find-assign j key value [] = refl
  find-assign j key value ((k, v) ∷ rest) = ground (
    arith,
    bytes_eq_iff k key,
    bytes_eq_iff k j,
    bytes_eq_iff key j,
    find-assign j key value rest,
  )

  pub find-erase :
      (j key : Bytes) (m : List (Bytes × V))
      → find j (erase key m) ≡ (if bytes_eq key j then none else find j m)
  unfolding find erase
  find-erase j key [] = ground arith
  find-erase j key ((k, v) ∷ rest) =
      ground
        (arith, bytes_eq_iff k key, bytes_eq_iff k j, bytes_eq_iff key j, find-erase j key rest)
