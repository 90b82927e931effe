-- ===== src/Sorting/Ordered.antt =====
-- The result of a sort is in order, and is a permutation of what was sorted.
use mathlib.Core.List.{Perm}
use mathlib.Core.List.Perm
use durastash.Prelude.{◌≡◌, refl, arith, inl, inr, Bool-cases, List, [], ◌∷◌, ℤ, All, suc, length}
use durastash.Prelude.Int.{ltb_ℤ, ◌≤ℤ◌}
use durastash.Sorting.{insert, sort}

module _ {A : Type 0} (key : A → ℤ) where
  -- No element has a smaller key than one before it.
  abbrev pub IsSorted : List A → Type 0
  IsSorted [] = Unit
  IsSorted (x ∷ xs) = All (λ y. key x ≤ℤ key y) xs × IsSorted xs

  pub insert-All : (P : A → Type 0) (a : A) (xs : List A) → P a → All P xs → All P (insert key a xs)
  unfolding insert
  insert-All P a [] h hs = (h, tt)
  insert-All P a (x ∷ xs) h (hx, hs) = elim (Bool-cases (ltb_ℤ (key x) (key a))) [
    | inl lt ↦ rw lt (hx, insert-All P a xs h hs)
    | inr ge ↦ rw ge (h, (hx, hs))
  ]

  All-weaken :
      (a x : A) (xs : List A)
      → key a ≤ℤ key x
      → All (λ y. key x ≤ℤ key y) xs
      → All (λ y. key a ≤ℤ key y) xs
  All-weaken a x [] h hs = tt
  All-weaken a x (y ∷ ys) h (hy, hs) = (omega arith, All-weaken a x ys h hs)

  insert-IsSorted : (a : A) (xs : List A) → IsSorted xs → IsSorted (insert key a xs)
  unfolding insert
  insert-IsSorted a [] h = (tt, tt)
  insert-IsSorted a (x ∷ xs) (hx, hs) = elim (Bool-cases (ltb_ℤ (key x) (key a))) [
    | inl lt ↦
        rw lt (insert-All (λ y. key x ≤ℤ key y) a xs (ground arith) hx, insert-IsSorted a xs hs)
    | inr ge ↦
        let below : key a ≤ℤ key x = ground arith in
        rw ge ((below, All-weaken a x xs below hx), (hx, hs))
  ]

  pub sort-IsSorted : (xs : List A) → IsSorted (sort key xs)
  unfolding sort
  sort-IsSorted [] = tt
  sort-IsSorted (x ∷ xs) = insert-IsSorted x (sort key xs) (sort-IsSorted xs)

  insert-perm : (a : A) (xs : List A) → Perm (insert key a xs) (a ∷ xs)
  unfolding insert
  insert-perm a [] = Perm.refl _
  insert-perm a (x ∷ xs) = elim (Bool-cases (ltb_ℤ (key x) (key a))) [
    | inl lt ↦ rw lt (Perm.trans (Perm.cons x (insert-perm a xs)) (Perm.swap _ _ _))
    | inr ge ↦ rw ge (Perm.refl _)
  ]

  pub sort-perm : (xs : List A) → Perm (sort key xs) xs
  unfolding sort
  sort-perm [] = Perm.refl _
  sort-perm (x ∷ xs) = Perm.trans (insert-perm x (sort key xs)) (Perm.cons x (sort-perm xs))

  pub sort-All : (P : A → Type 0) (xs : List A) → All P xs → All P (sort key xs)
  unfolding sort
  sort-All P [] h = tt
  sort-All P (x ∷ xs) (h, hs) = insert-All P x (sort key xs) h (sort-All P xs hs)

  length-insert : (a : A) (xs : List A) → length (insert key a xs) ≡ suc (length xs)
  unfolding insert
  length-insert a [] = refl
  length-insert a (x ∷ xs) = ground (arith, length-insert a xs)

  pub length-sort : (xs : List A) → length (sort key xs) ≡ length xs
  unfolding sort
  length-sort [] = refl
  length-sort (x ∷ xs) = omega (arith, length-insert x (sort key xs), length-sort xs)
