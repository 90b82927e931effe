-- ===== src/GroupStorage/Queue/Choosing.antt =====
-- The batches that `LoadBatch` chooses: of those that are pending, the first ones.
use mathlib.Core.List.{map-map}
use durastash.Prelude.{
  ℕ, zero, suc, ◌≡◌, refl, ap, sym, ◌∙◌, arith, false, Bool-cases, inl, inr, some, List, [], ◌∷◌,
  map, length-map, take, min, Bytes, ℤ, length, if◌then◌else◌, All,
}
use durastash.Prelude.Int.{ltb_ℤ, ◌≤ℤ◌}
use durastash.Contents.{Elem}
use durastash.Types.{BatchMetadata, batch_metadata_from_json}
use durastash.Sorting.{insert, sort}
use durastash.Sorting.Ordered.{IsSorted, sort-IsSorted, length-sort}
use durastash.Env.{Env}
use durastash.BatchManager.{is_pending, add_pending, pending_batches, first_batches}
use durastash.GroupStorage.Loading.{readable_batches}

abbrev start_of : ℤ × BatchMetadata → ℤ
start_of b = b.0

abbrev first_of : Bytes × ℤ → ℤ
first_of b = b.1

-- The pending ones of batches beside their first numbers.
pub pend : List (ℤ × BatchMetadata) → List (Bytes × ℤ)
pend [] = []
pend ((start, m) ∷ rest) =
    if is_pending m.status then (m.batch_id, start) ∷ pend rest else pend rest

insert-first :
    (b : Bytes × ℤ) (ys : List (Bytes × ℤ))
    → All (λ y. ltb_ℤ (first_of y) (first_of b) ≡ false) ys
    → insert first_of b ys ≡ b ∷ ys
unfolding insert
insert-first b [] h = refl
insert-first b (y ∷ ys) (h, hs) = ground arith

pend-All :
    (start : ℤ) (xs : List (ℤ × BatchMetadata))
    → All (λ x. ltb_ℤ (start_of x) start ≡ false) xs
    → All (λ y. ltb_ℤ (first_of y) start ≡ false) (pend xs)
unfolding pend
pend-All start [] h = tt
pend-All start ((s, m) ∷ xs) (h, hs) = elim (Bool-cases (is_pending m.status)) [
  | inl p ↦ rw p (h, pend-All start xs hs)
  | inr p ↦ rw p (pend-All start xs hs)
]

not_below :
    (start s : ℤ) (xs : List (ℤ × BatchMetadata))
    → ltb_ℤ s start ≡ false
    → All (λ x. s ≤ℤ start_of x) xs
    → All (λ x. ltb_ℤ (start_of x) start ≡ false) xs
not_below start s [] h hs = tt
not_below start s (x ∷ xs) h (first, rest) = (ground arith, not_below start s xs h rest)

-- Insertion before the filter is insertion after it.
insert-pend :
    (start : ℤ) (m : BatchMetadata) (xs : List (ℤ × BatchMetadata))
    → IsSorted start_of xs
    → pend (insert start_of (start, m) xs)
      ≡ (if is_pending m.status then insert first_of (m.batch_id, start) (pend xs) else pend xs)
unfolding insert pend
insert-pend start m [] h = refl
insert-pend start m ((s, n) ∷ xs) (h, hs) = elim (Bool-cases (ltb_ℤ s start)) [
  | inl lt ↦ ground (arith, insert-pend start m xs hs)
  | inr ge ↦
      let first : insert first_of (m.batch_id, start) (pend ((s, n) ∷ xs))
          ≡ (m.batch_id, start) ∷ pend ((s, n) ∷ xs) =
        insert-first (m.batch_id, start) (pend ((s, n) ∷ xs))
          (pend-All start ((s, n) ∷ xs) (ge, not_below start s xs ge h)) in
      rw ge (ground (arith, first))
]

sort-pend : (xs : List (ℤ × BatchMetadata)) → sort first_of (pend xs) ≡ pend (sort start_of xs)
unfolding sort pend
sort-pend [] = refl
sort-pend ((start, m) ∷ xs) =
    ground (arith, sort-pend xs, insert-pend start m (sort start_of xs) (sort-IsSorted start_of xs))

module _ (e : Env) where
  -- Where every value of the scan can be read, the filter of `GetLoadableBatches` keeps the pending ones.
  pub pending_batches-pend :
      (l : List (Bytes × Bytes))
      → ((k v : Bytes)
          → Elem (k, v) l
          → (m : BatchMetadata) × (batch_metadata_from_json e.json v ≡ some m))
      → pending_batches e.json l ≡ some (pend (readable_batches e l))
  unfolding pending_batches add_pending readable_batches pend
  pending_batches-pend [] readable = refl
  pending_batches-pend ((k, v) ∷ l) readable =
      let (m, read) = readable k v (inl refl) in
      let rest = pending_batches-pend l (λ j u x. readable j u (inr x)) in
      ground (arith, read, rest)

-- Of the numbers of batches, those of the pending ones.
unfoldable pub pendings : (ℕ → BatchMetadata) → List ℕ → List ℕ
pendings batch [] = []
pendings batch (i ∷ is) =
    if is_pending (batch i).status then i ∷ pendings batch is else pendings batch is

pend-pendings :
    (batch : ℕ → BatchMetadata) (is : List ℕ)
    → pend (map (λ i. ((batch i).sequence_start, batch i)) is)
      ≡ map (λ i. ((batch i).batch_id, (batch i).sequence_start)) (pendings batch is)
unfolding pend pendings
pend-pendings batch [] = refl
pend-pendings batch (i ∷ is) = ground (arith, pend-pendings batch is)

take-min :
    {A B : Type 0} (f : A → B) (n : ℕ) (xs : List A)
    → take (min n (length xs)) (map f xs) ≡ map f (take n xs)
take-min f zero xs = let e : min 0 (length xs) ≡ 0 = omega arith in rw e refl
take-min f (suc n) [] = let e : min (suc n) 0 ≡ 0 = omega arith in rw e refl
take-min f (suc n) (x ∷ xs) =
    let e : min (suc n) (suc (length xs)) ≡ suc (min n (length xs)) = omega arith in
    rw e (ap (◌∷◌ (f x)) (take-min f n xs))

-- The choice of `GetLoadableBatches` among batches that the scan has found.
pub first_batches-pendings :
    (n : ℕ) (batch : ℕ → BatchMetadata) (is : List ℕ) (found : List (ℤ × BatchMetadata))
    → sort start_of found ≡ map (λ i. ((batch i).sequence_start, batch i)) is
    → first_batches n (pend found) ≡ map (λ i. (batch i).batch_id) (take n (pendings batch is))
unfolding first_batches
first_batches-pendings n batch is found sorted =
    let f : ℕ → Bytes × ℤ = λ i. ((batch i).batch_id, (batch i).sequence_start) in
    let ps = pendings batch is in
    let chosen : sort first_of (pend found) ≡ map f ps =
      sort-pend found ∙ ap pend sorted ∙ pend-pendings batch is in
    let long : length (pend found) ≡ length ps =
      sym (length-sort first_of (pend found)) ∙ ap length chosen ∙ length-map ps f in
    rw (long, chosen)
      (ap (map (λ (b : Bytes × ℤ). b.0)) (take-min f n ps)
        ∙ map-map (λ (b : Bytes × ℤ). b.0) f (take n ps))
