-- ===== src/Outcome.antt =====
-- Calls that change state, and that return, throw or never come back.
pub mod Triples
use durastash.Errors.{Exception}

-- `deadlock` is a lock of a `std::mutex` that the calling thread already holds; `trap` is an integer
-- division by zero.
pub data Outcome {ℓ} (A : Type ℓ) : Type ℓ where
  ok : A → Outcome A
  throw : Exception → Outcome A
  deadlock : Outcome A
  trap : Outcome A

abbrev pub M : Type 0 → Type 0 → Type 0
M S A = S → Outcome A × S

module _ {S A : Type 0} where
  abbrev pub pure : A → M S A
  pure a s = (ok a, s)

  abbrev pub raise : Exception → M S A
  raise e s = (throw e, s)

  abbrev pub gets : (S → A) → M S A
  gets f s = (ok (f s), s)

module _ {S A B : Type 0} where
  abbrev pub continue : Outcome A → (A → M S B) → M S B
  continue (ok a) f s = f a s
  continue (throw e) f s = (throw e, s)
  continue deadlock f s = (deadlock, s)
  continue trap f s = (trap, s)

  infixl 5 ◌>>=◌ ◌>>◌
  abbrev pub ◌>>=◌ : M S A → (A → M S B) → M S B
  ◌>>=◌ m f s = let (r, s') = m s in continue r f s'

  abbrev pub ◌>>◌ : M S A → M S B → M S B
  m >> n = m >>= λ _. n
