-- ===== src/GroupStorage/Queue/Blocks.antt =====
-- Numbers in blocks of one size, and the lists of values and batches that they name.
use native.Mathlib.Nat.{mul-le-mul_right}
use mathlib.Core.List.{append-nil}
use native.Mathlib.Numerals.{add-one}
use native.Mathlib.Decide.{dec_lt, dec_le}
use durastash.Prelude.{
  ℕ, zero, suc, ◌+◌, ◌-◌, ◌*◌, ◌≤◌, ◌<◌, ◌≡◌, inl, inr, refl, ap, sym, ◌∙◌, arith, none, some, ◌↔◌,
  List, [], ◌∷◌, ◌++◌, map, Bytes, length, drop, ltb, get_or, min, if◌then◌else◌, ◌/◌, ℤ, pos,
}
use durastash.Prelude.Int.{i64_limit}
use durastash.GroupStorage.Saving.{batch_start_of, batch_end_of}
use durastash.GroupStorage.Ranges.{batch_range_lem}
use durastash.Contents.{Contents, Elem}
use durastash.BatchManager.DataKeys.{range}
use durastash.GroupStorage.Loads.{values_of}

pub next_block : (i size : ℕ) → (i + 1) * size ≡ i * size + size
next_block i size = omega arith

pub before : (i j size : ℕ) → i < j → i * size + size ≤ j * size
before i j size h =
    omega (arith, mul-le-mul_right {m = i + 1} {n = j} size (omega arith), next_block i size)

-- A number lies in one block only.
pub block_unique :
    (i j m size : ℕ)
    → i * size ≤ m
    → m < i * size + size
    → j * size ≤ m
    → m < j * size + size
    → i ≡ j
block_unique i j m size a b c d = elim (dec_lt i j) [
  | yes p ↦ absurd (omega (arith, before i j size p))
  | no p ↦ elim (dec_lt j i) [
    | yes q ↦ absurd (omega (arith, before j i size q))
    | no q ↦ omega arith
  ]
]

-- The batch of a number is the block in which it lies.
module _ (i n size : ℕ) (sized : 0 < size) (small : n + size < i64_limit) (low : i * size ≤ n)
    (high : n < i * size + size) where
  pub start_of-block : batch_start_of (pos n) size ≡ pos (i * size)
  start_of-block =
      let (a, b, is_a, is_b, at, below, above, long) = batch_range_lem n size sized small in
      let same : n / size ≡ i =
        block_unique (n / size) i n size (omega (arith, at)) (omega (arith, at)) low high in
      is_a ∙ ap pos (at ∙ ap (λ (t : ℕ). t * size) same)

  pub end_of-block : batch_end_of (batch_start_of (pos n) size) size ≡ pos (i * size + size - 1)
  end_of-block =
      let (a, b, is_a, is_b, at, below, above, long) = batch_range_lem n size sized small in
      let same : a ≡ i * size = cc (is_a, start_of-block) in
      ap (λ (t : ℤ). batch_end_of t size) is_a ∙ is_b ∙ ap pos (omega (arith, long, same))

-- A number below the end of the last block lies in a block.
pub block_of_last :
    (count m size : ℕ)
    → m < count * size
    → count * size ≤ m + size
    → (i : ℕ) × (i + 1 ≡ count) × (i * size ≤ m) × (m < i * size + size)
block_of_last zero m size h k = absurd (omega arith)
block_of_last (suc i) m size h k = (i, omega arith, omega arith, omega arith)

pub range-append : (m x y : ℕ) → range m (x + y) ≡ range m x ++ range (m + x) y
unfolding range
range-append m zero y =
    let e : 0 + y ≡ y = omega arith in let f : m + 0 ≡ m = omega arith in rw (e, f) refl
range-append m (suc x) y =
    let e : suc x + y ≡ suc (x + y) = omega arith in
    let f : m + suc x ≡ m + 1 + x = omega arith in
    rw (e, f) (ap (λ (t : List ℕ). m ∷ t) (range-append (m + 1) x y))

-- What is left of `l` numbers from `a` on: the first `size` of it, and the rest.
pub range-split :
    (a size l : ℕ)
    → range a (l - a) ≡ range a (min size (l - a)) ++ range (a + size) (l - (a + size))
range-split a size l = elim (dec_le size (l - a)) [
  | yes p ↦
      let d : l - a ≡ size + (l - (a + size)) = omega arith in
      let f : min size (size + (l - (a + size))) ≡ size = omega arith in
      rw d (rw f (range-append a size (l - (a + size))))
  | no p ↦
      let d : min size (l - a) ≡ l - a = omega arith in
      let f : l - (a + size) ≡ 0 = omega arith in
      rw (d, f) (unfold range in sym (append-nil (range a (l - a))))
]

module _ {A : Type 0} where
  pub map-append : (f : ℕ → A) (xs ys : List ℕ) → map f (xs ++ ys) ≡ map f xs ++ map f ys
  map-append f [] ys = refl
  map-append f (x ∷ xs) ys = ap (λ (t : List A). f x ∷ t) (map-append f xs ys)

  of_range :
      (f : ℕ → A) (n a : ℕ) (x : A)
      → Elem x (map f (range a n))
      → (i : ℕ) × (a ≤ i) × (i < a + n) × (x ≡ f i)
  unfolding range
  of_range f zero a x m = absurd m
  of_range f (suc n) a x (inl e) = (a, omega arith, omega arith, e)
  of_range f (suc n) a x (inr m) =
      let (i, h, k, e) = of_range f n (a + 1) x m in (i, omega arith, omega arith, e)

  in_range :
      (f : ℕ → A) (n a i : ℕ) (x : A) → a ≤ i → i < a + n → x ≡ f i → Elem x (map f (range a n))
  unfolding range
  in_range f zero a i x h k e = absurd (omega arith)
  in_range f (suc n) a i x h k e = elim (dec_lt a i) [
    | yes p ↦ inr (in_range f n (a + 1) i x (omega arith) (omega arith) e)
    | no p ↦ inl (e ∙ ap f (omega arith))
  ]

  pub Elem-range :
      (f : ℕ → A) (a n : ℕ) (x : A)
      → Elem x (map f (range a n)) ↔ ((i : ℕ) × (a ≤ i) × (i < a + n) × (x ≡ f i))
  Elem-range f a n x = (of_range f n a x, λ (i, h, k, e). in_range f n a i x h k e)

  get_or-shift :
      (v d : A) (vs : List A) (a n : ℕ)
      → map (λ m. get_or (v ∷ vs) m d) (range (a + 1) n) ≡ map (λ m. get_or vs m d) (range a n)
  unfolding range
  get_or-shift v d vs a zero = refl
  get_or-shift v d vs a (suc n) =
      rw (get_or-shift v d vs (a + 1) n)
        (ap (λ (t : A). t ∷ map (λ m. get_or vs m d) (range (a + 1) n)) step)
    where
      step : get_or (v ∷ vs) (a + 1) d ≡ get_or vs a d
      step = rw add-one

  -- The numbers of a list are those of its elements.
  pub get_or-range : (d : A) (vs : List A) → map (λ m. get_or vs m d) (range 0 (length vs)) ≡ vs
  unfolding range
  get_or-range d [] = refl
  get_or-range d (v ∷ vs) =
      ap (λ (t : List A). v ∷ t) (get_or-shift v d vs 0 (length vs) ∙ get_or-range d vs)

  -- The numbers of a list from one of them on.
  pub get_or-range_from :
      (d : A) (a : ℕ) (vs : List A) → map (λ m. get_or vs m d) (range a (length vs - a)) ≡ drop a vs
  unfolding range
  get_or-range_from d zero vs =
      let e : length vs - 0 ≡ length vs = omega arith in rw e (get_or-range d vs)
  get_or-range_from d (suc a) [] = let e : 0 - suc a ≡ 0 = omega arith in rw e refl
  get_or-range_from d (suc a) (v ∷ vs) =
      let e : length (v ∷ vs) - suc a ≡ length vs - a = omega arith in
      let f : suc a ≡ a + 1 = omega arith in
      rw e (rw f (get_or-shift v d vs a (length vs - a)) ∙ get_or-range_from d a vs)

  pub get_or-append_left :
      (d : A) (vs us : List A) (m : ℕ) → m < length vs → get_or (vs ++ us) m d ≡ get_or vs m d
  get_or-append_left d [] us m h = absurd (omega arith)
  get_or-append_left d (v ∷ vs) us zero h = refl
  get_or-append_left d (v ∷ vs) us (suc m) h = get_or-append_left d vs us m (omega arith)

  pub get_or-append_last : (d v : A) (vs : List A) → get_or (vs ++ (v ∷ [])) (length vs) d ≡ v
  get_or-append_last d v [] = refl
  get_or-append_last d v (u ∷ vs) = get_or-append_last d v vs

-- What a store holds under the keys of numbers: the values of a list, and nothing from its end on.
module _ (c : Contents) (vs : List Bytes) (key : ℕ → Bytes) where
  abbrev pub HoldsAt : ℕ → Type 0
  HoldsAt m = c (key m) ≡ (if ltb m (length vs) then some (get_or vs m []) else none)

  pub values_of-range :
      (x a : ℕ)
      → ((m : ℕ) → a ≤ m → m < a + x → HoldsAt m)
      → values_of c (map key (range a x))
        ≡ map (λ m. get_or vs m []) (range a (min x (length vs - a)))
  unfolding values_of range
  values_of-range zero a h = let e : min 0 (length vs - a) ≡ 0 = omega arith in rw e refl
  values_of-range (suc x) a h =
      let rest = values_of-range x (a + 1) (λ m p q. h m (omega arith) (omega arith)) in
      let here = h a (omega arith) (omega arith) in
      elim (dec_lt a (length vs)) [
        | yes p ↦
            let e : min (suc x) (length vs - a) ≡ suc (min x (length vs - (a + 1))) = omega arith in
            rw e (ground (arith, here, rest))
        | no p ↦
            let e : min (suc x) (length vs - a) ≡ 0 = omega arith in
            let f : min x (length vs - (a + 1)) ≡ 0 = omega arith in
            rw e (ground (arith, here, rw f at rest))
      ]
