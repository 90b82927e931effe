-- ===== src/Sorting.antt =====
-- `std::sort` with a comparison of signed keys, as an insertion sort. The standard leaves the order of
-- equal keys open; here the later one of two equal keys stays behind.
pub mod Ordered
pub mod Strict
use durastash.Prelude.{List, [], ◌∷◌, ℤ, if◌then◌else◌}
use durastash.Prelude.Int.{ltb_ℤ}

module _ {A : Type 0} (key : A → ℤ) where
  unfoldable pub insert : A → List A → List A
  insert a [] = a ∷ []
  insert a (x ∷ xs) =
      let rest = insert a xs in if ltb_ℤ (key x) (key a) then x ∷ rest else a ∷ x ∷ xs

  unfoldable pub sort : List A → List A
  unfolding insert
  sort [] = []
  sort (x ∷ xs) = insert x (sort xs)
