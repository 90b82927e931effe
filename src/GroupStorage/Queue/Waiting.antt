-- ===== src/GroupStorage/Queue/Waiting.antt =====
-- The batches of a queue that are still to be loaded, as numbers in their order.
use durastash.Prelude.{
  ℕ, zero, suc, ◌+◌, ◌≤◌, ◌<◌, ◌≡◌, refl, ap, arith, true, false, Bool-cases, inl, inr, List, [],
  ◌∷◌, map, take, drop, min,
}
use durastash.Contents.{Elem}
use durastash.Types.{BatchMetadata}
use durastash.BatchManager.{is_pending}
use durastash.BatchManager.DataKeys.{range}
use durastash.GroupStorage.Queue.Choosing.{pendings}

pub take-map-range :
    {A : Type 0} (f : ℕ → A) (n i k : ℕ) → take n (map f (range i k)) ≡ map f (range i (min n k))
unfolding range
take-map-range f zero i k = let e : min 0 k ≡ 0 = omega arith in rw e refl
take-map-range f (suc n) i zero = let e : min (suc n) 0 ≡ 0 = omega arith in rw e refl
take-map-range f (suc n) i (suc k) =
    let e : min (suc n) (suc k) ≡ suc (min n k) = omega arith in
    rw e (ap (◌∷◌ (f i)) (take-map-range f n (i + 1) k))

-- Numbers of batches that are pending, in their order, from `low` on and below `count`.
unfoldable pub Waiting : (ℕ → BatchMetadata) → ℕ → ℕ → List ℕ → Type 0
Waiting batch count low [] = Unit
Waiting batch count low (i ∷ is) =
    ((low ≤ i) × (i < count))
    × (is_pending (batch i).status ≡ true)
    × Waiting batch count (i + 1) is

Waiting-weaken :
    (batch : ℕ → BatchMetadata) (count low high : ℕ) (is : List ℕ)
    → low ≤ high
    → Waiting batch count high is
    → Waiting batch count low is
unfolding Waiting
Waiting-weaken batch count low high [] h w = tt
Waiting-weaken batch count low high (i ∷ is) h (bounds, p, rest) = (omega arith, p, rest)

pub Waiting-Elem :
    (batch : ℕ → BatchMetadata) (count low j : ℕ) (is : List ℕ)
    → Waiting batch count low is
    → Elem j is
    → low ≤ j
unfolding Waiting
Waiting-Elem batch count low j [] w x = elim x [ ]
Waiting-Elem batch count low j (i ∷ is) (bounds, p, rest) (inl same) = omega arith
Waiting-Elem batch count low j (i ∷ is) (bounds, p, rest) (inr x) =
    let later = Waiting-Elem batch count (i + 1) j is rest x in omega arith

pub Waiting-same :
    (batch batch' : ℕ → BatchMetadata) (count low : ℕ) (is : List ℕ)
    → ((j : ℕ) → low ≤ j → batch' j ≡ batch j)
    → Waiting batch count low is
    → Waiting batch' count low is
unfolding Waiting
Waiting-same batch batch' count low [] same w = tt
Waiting-same batch batch' count low (i ∷ is) same (bounds, p, rest) =
    let here = same i bounds.0 in
    (
      bounds,
      rw here p,
      Waiting-same batch batch' count (i + 1) is (λ j h. same j (omega arith)) rest,
    )

pub pendings-Waiting :
    (batch : ℕ → BatchMetadata) (count n low k : ℕ)
    → low + k ≤ count
    → Waiting batch count low (take n (pendings batch (range low k)))
unfolding Waiting pendings range
pendings-Waiting batch count zero low k h = tt
pendings-Waiting batch count (suc n) low zero h = tt
pendings-Waiting batch count (suc n) low (suc k) h =
    elim (Bool-cases (is_pending (batch low).status)) [
      | inl p ↦ rw p (omega arith, p, pendings-Waiting batch count n (low + 1) k (omega arith))
      | inr p ↦ rw p (
          Waiting-weaken batch count low (low + 1)
            (take (suc n) (pendings batch (range (low + 1) k))) (omega arith)
            (pendings-Waiting batch count (suc n) (low + 1) k (omega arith)))
    ]

-- When the first pending batches have been loaded and the others stay, the others are pending.
pub pendings-drop :
    (batch batch' : ℕ → BatchMetadata) (n low k : ℕ)
    → ((j : ℕ)
        → Elem j (take n (pendings batch (range low k)))
        → is_pending (batch' j).status ≡ false)
    → ((j : ℕ) → low ≤ j → ¬ Elem j (take n (pendings batch (range low k))) → batch' j ≡ batch j)
    → pendings batch' (range low k) ≡ drop n (pendings batch (range low k))
unfolding pendings range
pendings-drop batch batch' zero low zero done kept = refl
pendings-drop batch batch' (suc n) low zero done kept = refl
pendings-drop batch batch' zero low (suc k) done kept =
    let here = kept low (omega arith) (λ x. x) in
    let rest = pendings-drop batch batch' zero (low + 1) k done (λ j h. kept j (omega arith)) in
    rw (here, rest) refl
pendings-drop batch batch' (suc n) low (suc k) done kept =
    elim (Bool-cases (is_pending (batch low).status)) [
      | inl p ↦
          let all : (j : ℕ)
              → Elem j (low ∷ take n (pendings batch (range (low + 1) k)))
              → is_pending (batch' j).status ≡ false =
            rw p at done in
          let others : (j : ℕ)
              → low ≤ j
              → ¬ Elem j (low ∷ take n (pendings batch (range (low + 1) k)))
              → batch' j ≡ batch j =
            rw p at kept in
          let here = all low (inl refl) in
          let rest =
            pendings-drop batch batch' n (low + 1) k (λ j x. all j (inr x))
              (λ j h absent. others j (omega arith) (below j h absent)) in
          rw (p, here) rest
      | inr p ↦
          let all : (j : ℕ)
              → Elem j (take (suc n) (pendings batch (range (low + 1) k)))
              → is_pending (batch' j).status ≡ false =
            rw p at done in
          let others : (j : ℕ)
              → low ≤ j
              → ¬ Elem j (take (suc n) (pendings batch (range (low + 1) k)))
              → batch' j ≡ batch j =
            rw p at kept in
          let here = others low (omega arith) absent in
          let rest =
            pendings-drop batch batch' (suc n) (low + 1) k all (λ j h. others j (omega arith)) in
          rw (here, p) rest
    ]
  where
    below :
        (j : ℕ)
        → low + 1 ≤ j
        → ¬ Elem j (take n (pendings batch (range (low + 1) k)))
        → ¬ Elem j (low ∷ take n (pendings batch (range (low + 1) k)))
    below j h absent (inl same) = omega arith
    below j h absent (inr x) = absent x

    absent : ¬ Elem low (take (suc n) (pendings batch (range (low + 1) k)))
    absent x =
        let above =
          Waiting-Elem batch (low + 1 + k) (low + 1) low
            (take (suc n) (pendings batch (range (low + 1) k)))
            (pendings-Waiting batch (low + 1 + k) (suc n) (low + 1) k (omega arith)) x in
        omega arith
