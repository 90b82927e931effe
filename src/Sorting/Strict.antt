-- ===== src/Sorting/Strict.antt =====
-- Lists whose keys ascend strictly: they are determined by their elements.
use durastash.Prelude.{
  ◌≡◌, ◌≢◌, ◌↔◌, refl, ap, sym, ◌∙◌, arith, inl, inr, true, Bool-cases, List, [], ◌∷◌, ℤ, pos,
  negsuc, All, ◌+◌, ltb,
}
use durastash.Prelude.Int.{ltb_ℤ, ◌≤ℤ◌}
use durastash.Contents.{Elem}
use durastash.Sorting.{insert, sort}
use durastash.Sorting.Ordered.{IsSorted, insert-All, sort-All}

lt_of_le_ne : (a b : ℤ) → a ≤ℤ b → a ≢ b → ltb_ℤ a b ≡ true
lt_of_le_ne (pos m) (pos n) h ne = apart (λ e. ne (ap pos e))
  where
    apart : m ≢ n → ltb (m + 0) (n + 0) ≡ true
    apart k = ground arith
lt_of_le_ne (pos m) (negsuc n) h ne = absurd (omega arith)
lt_of_le_ne (negsuc m) (pos n) h ne = ground arith
lt_of_le_ne (negsuc m) (negsuc n) h ne = apart (λ e. ne (ap negsuc e))
  where
    apart : m ≢ n → ltb_ℤ (negsuc m) (negsuc n) ≡ true
    apart k = ground arith

module _ {A : Type 0} where
  pub All-at-Elem : (P : A → Type 0) (x : A) (xs : List A) → All P xs → Elem x xs → P x
  All-at-Elem P x [] h m = elim m [ ]
  All-at-Elem P x (y ∷ ys) (h, hs) (inl e) = rw e h
  All-at-Elem P x (y ∷ ys) (h, hs) (inr m) = All-at-Elem P x ys hs m

  pub All-of_Elem : (P : A → Type 0) (xs : List A) → ((x : A) → Elem x xs → P x) → All P xs
  All-of_Elem P [] h = tt
  All-of_Elem P (x ∷ xs) h = (h x (inl refl), All-of_Elem P xs (λ y m. h y (inr m)))

module _ {A : Type 0} (key : A → ℤ) where
  abbrev pub IsStrict : List A → Type 0
  IsStrict [] = Unit {0}
  IsStrict (x ∷ xs) = All (λ y. ltb_ℤ (key x) (key y) ≡ true) xs × IsStrict xs

  -- No two elements have the same key.
  abbrev pub AreApart : List A → Type 0
  AreApart [] = Unit {0}
  AreApart (x ∷ xs) = All (λ y. key x ≢ key y) xs × AreApart xs

  insert-AreApart :
      (a : A) (xs : List A) → All (λ y. key a ≢ key y) xs → AreApart xs → AreApart (insert key a xs)
  unfolding insert
  insert-AreApart a [] h hs = (tt, tt)
  insert-AreApart a (x ∷ xs) (h, hs) (k, ks) = elim (Bool-cases (ltb_ℤ (key x) (key a))) [
    | inl lt ↦
        rw lt
          (insert-All key (λ y. key x ≢ key y) a xs (λ q. h (sym q)) k, insert-AreApart a xs hs ks)
    | inr ge ↦ rw ge ((h, hs), (k, ks))
  ]

  pub sort-AreApart : (xs : List A) → AreApart xs → AreApart (sort key xs)
  unfolding sort
  sort-AreApart [] h = tt
  sort-AreApart (x ∷ xs) (h, hs) =
      insert-AreApart x (sort key xs) (sort-All key (λ y. key x ≢ key y) xs h) (sort-AreApart xs hs)

  insert-Elem : (a z : A) (xs : List A) → Elem z (insert key a xs) ↔ Elem z (a ∷ xs)
  unfolding insert
  insert-Elem a z [] = (λ m. m, λ m. m)
  insert-Elem a z (x ∷ xs) = elim (Bool-cases (ltb_ℤ (key x) (key a))) [
    | inl lt ↦ rw lt (to (insert-Elem a z xs), from (insert-Elem a z xs))
    | inr ge ↦ rw ge (λ m. m, λ m. m)
  ]
    where
      swap : Elem z (a ∷ xs) → Elem z (a ∷ x ∷ xs)
      swap (inl e) = inl e
      swap (inr n) = inr (inr n)

      to :
          (Elem z (insert key a xs) ↔ Elem z (a ∷ xs))
          → Elem z (x ∷ insert key a xs)
          → Elem z (a ∷ x ∷ xs)
      to same (inl e) = inr (inl e)
      to same (inr m) = swap (same.0 m)

      from :
          (Elem z (insert key a xs) ↔ Elem z (a ∷ xs))
          → Elem z (a ∷ x ∷ xs)
          → Elem z (x ∷ insert key a xs)
      from same (inl e) = inr (same.1 (inl e))
      from same (inr (inl e)) = inl e
      from same (inr (inr m)) = inr (same.1 (inr m))

  -- A sort keeps the elements.
  pub sort-Elem : (z : A) (xs : List A) → Elem z (sort key xs) ↔ Elem z xs
  unfolding sort
  sort-Elem z [] = (λ m. m, λ m. m)
  sort-Elem z (x ∷ xs) = (
    λ m. to ((insert-Elem x z (sort key xs)).0 m) (sort-Elem z xs).0,
    λ m. (insert-Elem x z (sort key xs)).1 (from m (sort-Elem z xs).1),
  )
    where
      to : Elem z (x ∷ sort key xs) → (Elem z (sort key xs) → Elem z xs) → Elem z (x ∷ xs)
      to (inl e) f = inl e
      to (inr m) f = inr (f m)

      from : Elem z (x ∷ xs) → (Elem z xs → Elem z (sort key xs)) → Elem z (x ∷ sort key xs)
      from (inl e) f = inl e
      from (inr m) f = inr (f m)

  below_rest :
      (x : A) (xs : List A)
      → All (λ y. key x ≤ℤ key y) xs
      → All (λ y. key x ≢ key y) xs
      → All (λ y. ltb_ℤ (key x) (key y) ≡ true) xs
  below_rest x [] h k = tt
  below_rest x (y ∷ ys) (h, hs) (k, ks) = (lt_of_le_ne (key x) (key y) h k, below_rest x ys hs ks)

  pub IsSorted-IsStrict : (xs : List A) → IsSorted key xs → AreApart xs → IsStrict xs
  IsSorted-IsStrict [] h k = tt
  IsSorted-IsStrict (x ∷ xs) (h, hs) (k, ks) = (below_rest x xs h k, IsSorted-IsStrict xs hs ks)

  lt_asym : (a b : ℤ) → ltb_ℤ a b ≡ true → ltb_ℤ b a ≡ true → ⊥
  lt_asym a b h k = ground arith

  -- Two such lists with the same elements are equal.
  pub IsStrict-unique :
      (xs ys : List A) → IsStrict xs → IsStrict ys → ((x : A) → Elem x xs ↔ Elem x ys) → xs ≡ ys
  IsStrict-unique [] [] h k same = refl
  IsStrict-unique [] (y ∷ ys) h k same = absurd ((same y).1 (inl refl))
  IsStrict-unique (x ∷ xs) [] h k same = absurd ((same x).0 (inl refl))
  IsStrict-unique (x ∷ xs) (y ∷ ys) (h, hs) (k, ks) same =
      let rest = IsStrict-unique xs ys hs ks (λ z. (later z, sooner z)) in
      ap (λ (t : A). t ∷ xs) first ∙ ap (λ (t : List A). y ∷ t) rest
    where
      clash : Elem x ys → Elem y xs → x ≡ y
      clash m n = absurd (
          lt_asym (key y) (key x) (All-at-Elem (λ z. ltb_ℤ (key y) (key z) ≡ true) x ys k m)
            (All-at-Elem (λ z. ltb_ℤ (key x) (key z) ≡ true) y xs h n))

      decide : Elem x (y ∷ ys) → Elem y (x ∷ xs) → x ≡ y
      decide (inl e) n = e
      decide (inr m) (inl e) = sym e
      decide (inr m) (inr n) = clash m n

      first : x ≡ y
      first = decide ((same x).0 (inl refl)) ((same y).1 (inl refl))

      not_first : (z : A) → Elem z xs → z ≢ x
      not_first z m e =
          let above = All-at-Elem (λ t. ltb_ℤ (key x) (key t) ≡ true) z xs h m in
          lt_asym (key x) (key z) above (rw e (rw e at above))

      not_first' : (z : A) → Elem z ys → z ≢ y
      not_first' z m e =
          let above = All-at-Elem (λ t. ltb_ℤ (key y) (key t) ≡ true) z ys k m in
          lt_asym (key y) (key z) above (rw e (rw e at above))

      strip : (z w : A) (l : List A) → z ≢ w → Elem z (w ∷ l) → Elem z l
      strip z w l ne (inl e) = absurd (ne e)
      strip z w l ne (inr m) = m

      later : (z : A) → Elem z xs → Elem z ys
      later z m = strip z y ys (λ e. not_first z m (e ∙ sym first)) ((same z).0 (inr m))

      sooner : (z : A) → Elem z ys → Elem z xs
      sooner z m = strip z x xs (λ e. not_first' z m (e ∙ first)) ((same z).1 (inr m))
