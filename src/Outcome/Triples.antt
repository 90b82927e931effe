-- ===== src/Outcome/Triples.antt =====
-- What a call leads to: `Holds I P m Q` says that from a state with `P` the call `m` returns a value `a`
-- in a state with `Q a`, or throws in a state with `I`; it never waits for ever, and never traps.
use durastash.Prelude.{◌≡◌, Option, none, some, Bool, true, false, if◌then◌else◌}
use durastash.Outcome.{Outcome, ok, throw, deadlock, trap, M, continue, ◌>>=◌}

module _ {S : Type 0} (I : S → Type 0) where
  abbrev pub Ends : {A : Type 0} → (A → S → Type 0) → Outcome A × S → Type 0
  Ends Q (ok a, s) = Q a s
  Ends Q (throw x, s) = I s
  Ends Q (deadlock, s) = ⊥
  Ends Q (trap, s) = ⊥

  abbrev pub Holds : {A : Type 0} → (S → Type 0) → M S A → (A → S → Type 0) → Type 0
  Holds P m Q = (s : S) → P s → Ends Q (m s)

  abbrev pub Keeps : {A : Type 0} → M S A → Type 0
  Keeps m = Holds I m (λ _. I)

  module _ {A B : Type 0} where
    pub continue-Ends :
        (Q : A → S → Type 0) (R : B → S → Type 0) (f : A → M S B)
        → ((a : A) → Holds (Q a) (f a) R)
        → (r : Outcome A × S) → Ends Q r
        → Ends R (continue r.0 f r.1)
    continue-Ends Q R f h (ok a, s) x = h a s x
    continue-Ends Q R f h (throw e, s) x = x
    continue-Ends Q R f h (deadlock, s) x = x
    continue-Ends Q R f h (trap, s) x = x

    -- A call, and another after it.
    pub seq :
        (P : S → Type 0) (Q : A → S → Type 0) (R : B → S → Type 0) (m : M S A) (f : A → M S B)
        → Holds P m Q
        → ((a : A) → Holds (Q a) (f a) R)
        → Holds P (m >>= f) R
    seq P Q R m f h k s p = continue-Ends Q R f k (m s) (h s p)

    pub seq-Keeps :
        (m : M S A) (f : A → M S B) → Keeps m → ((a : A) → Keeps (f a)) → Keeps (m >>= f)
    seq-Keeps m f = seq I (λ _. I) (λ _. I) m f

  module _ {A : Type 0} where
    pub if-Keeps : (b : Bool) (m n : M S A) → Keeps m → Keeps n → Keeps (if b then m else n)
    if-Keeps true m n h k = h
    if-Keeps false m n h k = k

    pub else-Keeps : (b : Bool) (m n : M S A) → b ≡ false → Keeps n → Keeps (if b then m else n)
    else-Keeps true m n p h = absurd (cc p)
    else-Keeps false m n p h = h

    pub option-Keeps :
        {B : Type 0} (o : Option B) (m : M S A) (f : B → M S A)
        → Keeps m
        → ((b : B) → Keeps (f b))
        → Keeps (elim o [ none ↦ m | some b ↦ f b ])
    option-Keeps none m f h k = h
    option-Keeps (some b) m f h k = k b

-- A call in a part of the state.
module _ {S T : Type 0} {A : Type 0} (I : S → Type 0) (J : T → Type 0) where
  pub wrap-Ends :
      (put : S → T) (Q : A → S → Type 0) (R : A → T → Type 0)
      → ((s : S) → I s → J (put s))
      → ((a : A) (s : S) → Q a s → R a (put s))
      → (r : Outcome A × S) → Ends I Q r
      → Ends J R (r.0, put r.1)
  wrap-Ends put Q R i q (ok a, s) x = q a s x
  wrap-Ends put Q R i q (throw e, s) x = i s x
  wrap-Ends put Q R i q (deadlock, s) x = x
  wrap-Ends put Q R i q (trap, s) x = x
