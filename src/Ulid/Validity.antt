-- ===== src/Ulid/Validity.antt =====
-- Which strings are identifiers, and that what `Generate` returns is one.
use durastash.Prelude.{
  ℕ, zero, suc, ◌/◌, ◌%◌, ◌<◌, ◌≡◌, ◌↔◌, refl, arith, List, [], ◌∷◌, ◌++◌, Bytes, true, map, length,
  length-append, length-map, All, All-append, get_or, ◌==◌, ==_iff, Bool-cases, inl, inr,
}
use durastash.System.{System, IsInRange}
use durastash.Ulid.{
  encoding_chars, encoding_char, generate_at, is_encoding_char, all_encoding_chars, is_valid,
}
use durastash.Ulid.Digits.{base32, length-base32, is_encoding_char-encoding_char}
use durastash.Ulid.Random.{draws, length-draws, draws-All, generate_at-digits}

-- A character of the alphabet: that of some digit below 32.
abbrev pub IsLetter : ℕ → Type 0
IsLetter c = (d : ℕ) × (d < 32) × (encoding_char d ≡ c)

found_at :
    (xs : Bytes) (c : ℕ)
    → is_encoding_char xs c ≡ true
    → (i : ℕ) × (i < length xs) × (get_or xs i 0 ≡ c)
unfolding is_encoding_char
found_at [] c h = cc
found_at (x ∷ xs) c h = elim (Bool-cases (x == c)) [
  | inl here ↦ (0, omega arith, (==_iff x c).0 here)
  | inr there ↦ let (i, lt, e) = found_at xs c (ground arith) in (suc i, omega arith, e)
]

IsLetter-found : (c : ℕ) → is_encoding_char encoding_chars c ≡ true → IsLetter c
unfolding encoding_char encoding_chars
IsLetter-found c h = let (i, lt, e) = found_at encoding_chars c h in (i, lt, e)

found-IsLetter : (c : ℕ) → IsLetter c → is_encoding_char encoding_chars c ≡ true
found-IsLetter c (d, lt, e) = rw (← e) (is_encoding_char-encoding_char d lt)

letters-All : (s : Bytes) → all_encoding_chars s ≡ true → All IsLetter s
unfolding all_encoding_chars
letters-All [] h = tt
letters-All (c ∷ cs) h = (IsLetter-found c (ground arith), letters-All cs (ground arith))

All-letters : (s : Bytes) → All IsLetter s → all_encoding_chars s ≡ true
unfolding all_encoding_chars
All-letters [] h = refl
All-letters (c ∷ cs) (h, hs) = rw (found-IsLetter c h) (All-letters cs hs)

-- `IsValid` accepts exactly the strings of 26 characters that all come from the alphabet.
pub is_valid_iff : (s : Bytes) → (is_valid s ≡ true) ↔ ((length s ≡ 26) × All IsLetter s)
unfolding is_valid
is_valid_iff s =
    (λ h. (ground arith, letters-All s (ground arith)), λ h. ground (arith, All-letters s h.1))

letters-map : (ds : List ℕ) → All (λ d. d < 32) ds → All IsLetter (map encoding_char ds)
letters-map [] h = tt
letters-map (d ∷ ds) (h, hs) = ((d, h, refl), letters-map ds hs)

letters-base32 : (n t : ℕ) → All IsLetter (base32 n t)
unfolding base32
letters-base32 zero t = tt
letters-base32 (suc n) t =
    All-append IsLetter (base32 n (t / 32)) (encoding_char (t % 32) ∷ [])
      (letters-base32 n (t / 32)) ((t % 32, omega arith, refl), tt)

module _ (sys : System) (law : IsInRange sys) where
  open sys use {Host}

  -- A generated identifier is valid, for every time and every state of the host whose draws lie
  -- below 32.
  pub is_valid-generate_at : (t : ℕ) (host : Host) → is_valid (generate_at sys t host).0 ≡ true
  is_valid-generate_at t host = rw (generate_at-digits sys law t host) whole
    where
      cells : Bytes
      cells =
          map encoding_char (draws sys 10 host).0
          ++ map encoding_char (draws sys 6 (draws sys 10 host).1).0

      size : length (base32 10 t ++ cells) ≡ 26
      size = omega (
        arith,
        length-append (base32 10 t) cells,
        length-append (map encoding_char (draws sys 10 host).0)
            (map encoding_char (draws sys 6 (draws sys 10 host).1).0),
        length-map (draws sys 10 host).0 encoding_char,
        length-map (draws sys 6 (draws sys 10 host).1).0 encoding_char,
        length-draws sys 10 host,
        length-draws sys 6 (draws sys 10 host).1,
        length-base32 10 t,
      )

      letters : All IsLetter (base32 10 t ++ cells)
      letters = All-append IsLetter (base32 10 t) cells (letters-base32 10 t) (
          All-append IsLetter (map encoding_char (draws sys 10 host).0) _
            (letters-map _ (draws-All sys law 10 host))
            (letters-map _ (draws-All sys law 6 (draws sys 10 host).1)))

      whole : is_valid (base32 10 t ++ cells) ≡ true
      whole = (is_valid_iff _).1 (size, letters)
