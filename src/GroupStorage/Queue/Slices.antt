-- ===== src/GroupStorage/Queue/Slices.antt =====
-- Runs of batches: the values of their results, and which of them are pending.
use durastash.Prelude.{
  ℕ, zero, suc, ◌+◌, ◌*◌, ◌≤◌, ◌<◌, ◌≡◌, refl, ap, sym, ◌∙◌, arith, true, false, List, [], ◌∷◌,
  ◌++◌, Bytes, map, take, drop, min,
}
use durastash.Contents.{Elem}
use durastash.Types.{BatchMetadata}
use durastash.BatchManager.{is_pending}
use durastash.BatchManager.DataKeys.{range}
use durastash.GroupStorage.Loading.{BatchLoadResult}
use durastash.GroupStorage.Queue.Blocks.{next_block, Elem-range}
use durastash.GroupStorage.Queue.Choosing.{pendings}
use durastash.GroupStorage.Queue.Waiting.{take-map-range}
use durastash.GroupStorage.Queue.Delivering.{delivery}

take-add : {A : Type 0} (a b : ℕ) (xs : List A) → take (a + b) xs ≡ take a xs ++ take b (drop a xs)
take-add zero b xs = let e : 0 + b ≡ b = omega arith in rw e refl
take-add (suc a) zero [] = let e : suc a + 0 ≡ suc a = omega arith in rw e refl
take-add (suc a) (suc b) [] = let e : suc a + suc b ≡ suc (a + suc b) = omega arith in rw e refl
take-add (suc a) b (x ∷ xs) =
    let e : suc a + b ≡ suc (a + b) = omega arith in rw e (ap (◌∷◌ x) (take-add a b xs))

drop-add : {A : Type 0} (a b : ℕ) (xs : List A) → drop b (drop a xs) ≡ drop (a + b) xs
drop-add zero b xs = let e : 0 + b ≡ b = omega arith in rw e refl
drop-add (suc a) zero [] = let e : suc a + 0 ≡ suc a = omega arith in rw e refl
drop-add (suc a) (suc b) [] = let e : suc a + suc b ≡ suc (a + suc b) = omega arith in rw e refl
drop-add (suc a) b (x ∷ xs) =
    let e : suc a + b ≡ suc (a + b) = omega arith in rw e (drop-add a b xs)

-- The values of the results of a `LoadBatch`, one after the other.
unfoldable pub all_values : List BatchLoadResult → List Bytes
all_values [] = []
all_values (r ∷ rs) = r.values ++ all_values rs

pub delivery-all_values :
    (id : ℕ → Bytes) (size : ℕ) (vs : List Bytes) (m u : ℕ)
    → all_values (map (delivery id size vs) (range u m)) ≡ take (m * size) (drop (u * size) vs)
unfolding all_values range
delivery-all_values id size vs zero u = let e : 0 * size ≡ 0 = omega arith in rw e refl
delivery-all_values id size vs (suc m) u =
    let rest = delivery-all_values id size vs m (u + 1) in
    let long : suc m * size ≡ size + m * size = omega arith in
    let next : (u + 1) * size ≡ u * size + size = next_block u size in
    rw (rest, long, next)
      (sym (
        take-add size (m * size) (drop (u * size) vs)
        ∙ ap (λ (xs : List Bytes). take size (drop (u * size) vs) ++ take (m * size) xs)
            (drop-add (u * size) size vs)))

map_id : (is : List ℕ) → map (λ i. i) is ≡ is
map_id [] = refl
map_id (i ∷ is) = ap (◌∷◌ i) (map_id is)

pub take-range : (n i k : ℕ) → take n (range i k) ≡ range i (min n k)
take-range n i k =
    ap (take n) (sym (map_id (range i k)))
    ∙ take-map-range (λ i. i) n i k
    ∙ map_id (range i (min n k))

pub Elem-range_bounds : (i k j : ℕ) → Elem j (range i k) → (i ≤ j) × (j < i + k)
Elem-range_bounds i k j x =
    let y : Elem j (map (λ i. i) (range i k)) = rw map_id x in
    let (n, low, high, same) = (Elem-range (λ i. i) i k j).0 y in omega arith

pub Elem-range_inside : (i k j : ℕ) → i ≤ j → j < i + k → Elem j (range i k)
Elem-range_inside i k j low high =
    let y : Elem j (map (λ i. i) (range i k)) =
      (Elem-range (λ i. i) i k j).1 (j, low, high, refl) in
    rw map_id at y

module _ (batch : ℕ → BatchMetadata) where
  pub pendings-append :
      (is js : List ℕ) → pendings batch (is ++ js) ≡ pendings batch is ++ pendings batch js
  unfolding pendings
  pendings-append [] js = refl
  pendings-append (i ∷ is) js = ground (arith, pendings-append is js)

  pub pendings-none :
      (lo k : ℕ)
      → ((i : ℕ) → (lo ≤ i) × (i < lo + k) → is_pending (batch i).status ≡ false)
      → pendings batch (range lo k) ≡ []
  unfolding pendings range
  pendings-none lo zero h = refl
  pendings-none lo (suc k) h =
      let here = h lo (omega arith) in rw here (pendings-none (lo + 1) k (λ i b. h i (omega arith)))

  pub pendings-all :
      (lo k : ℕ)
      → ((i : ℕ) → (lo ≤ i) × (i < lo + k) → is_pending (batch i).status ≡ true)
      → pendings batch (range lo k) ≡ range lo k
  unfolding pendings range
  pendings-all lo zero h = refl
  pendings-all lo (suc k) h =
      let here = h lo (omega arith) in
      rw here (ap (◌∷◌ lo) (pendings-all (lo + 1) k (λ i b. h i (omega arith))))
