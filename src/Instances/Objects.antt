-- ===== src/Instances/Objects.antt =====
-- Objects as lists of entries, printed with a mark before every character.
use mathlib.Core.Option
use durastash.Prelude.{
  ℕ, zero, suc, ◌<◌, ◌≡◌, refl, arith, Bool, false, ◌||◌, Option, none, some, List, [], ◌∷◌, ◌++◌,
  Bytes, ℤ, pos, negsuc, length, length-append, if◌then◌else◌,
}
use durastash.Prelude.Text.{bytes_eq}
use durastash.Json.{Jsonable, JsonLaws}

pub data Value : Type 0 where
  str : Bytes → Value
  int : ℤ → Value

abbrev Fields : Type 0
Fields = List (Bytes × Value)

unfoldable pub find_string : Bytes → Fields → Option Bytes
find_string j [] = none
find_string j ((k, str v) ∷ o) = if bytes_eq k j then some v else find_string j o
find_string j ((k, int n) ∷ o) = find_string j o

unfoldable pub find_int : Bytes → Fields → Option ℤ
find_int j [] = none
find_int j ((k, str v) ∷ o) = find_int j o
find_int j ((k, int n) ∷ o) = if bytes_eq k j then some n else find_int j o

unfoldable pub has_field : Bytes → Fields → Bool
has_field j [] = false
has_field j ((k, v) ∷ o) = bytes_eq k j || has_field j o

unfoldable pub print_nat : ℕ → Bytes
print_nat zero = 0 ∷ []
print_nat (suc n) = 1 ∷ print_nat n

unfoldable pub print_string : Bytes → Bytes
print_string [] = 0 ∷ []
print_string (c ∷ s) = 1 ∷ c ∷ print_string s

unfoldable pub print_value : Value → Bytes
unfolding print_nat print_string
print_value (str s) = 0 ∷ print_string s
print_value (int (pos n)) = 1 ∷ 0 ∷ print_nat n
print_value (int (negsuc n)) = 1 ∷ 1 ∷ print_nat n

unfoldable pub print_fields : Fields → Bytes
unfolding print_value
print_fields [] = 0 ∷ []
print_fields ((k, v) ∷ o) = 1 ∷ (print_string k ++ (print_value v ++ print_fields o))

unfoldable pub parse_nat : Bytes → Option (ℕ × Bytes)
parse_nat [] = none
parse_nat (zero ∷ r) = some (0, r)
parse_nat (suc m ∷ r) = Option.map (λ (p : ℕ × Bytes). (suc p.0, p.1)) (parse_nat r)

unfoldable pub parse_string : Bytes → Option (Bytes × Bytes)
parse_string [] = none
parse_string (zero ∷ r) = some ([], r)
parse_string (suc m ∷ []) = none
parse_string (suc m ∷ c ∷ r) = Option.map (λ (p : Bytes × Bytes). (c ∷ p.0, p.1)) (parse_string r)

unfoldable pub parse_value : Bytes → Option (Value × Bytes)
unfolding parse_nat parse_string
parse_value (zero ∷ r) = Option.map (λ (p : Bytes × Bytes). (str p.0, p.1)) (parse_string r)
parse_value (suc m ∷ zero ∷ r) = Option.map (λ (p : ℕ × Bytes). (int (pos p.0), p.1)) (parse_nat r)
parse_value (suc m ∷ suc n ∷ r) =
    Option.map (λ (p : ℕ × Bytes). (int (negsuc p.0), p.1)) (parse_nat r)
parse_value _ = none

unfoldable pub parse_fields : ℕ → Bytes → Option Fields
unfolding parse_value
parse_fields zero s = none
parse_fields (suc f) [] = none
parse_fields (suc f) (zero ∷ r) = some []
parse_fields (suc f) (suc m ∷ r) = elim (parse_string r) [
  | none ↦ none
  | some (k, r1) ↦ elim (parse_value r1) [
    | none ↦ none
    | some (v, r2) ↦ Option.map (λ (o : Fields). (k, v) ∷ o) (parse_fields f r2)
  ]
]

parse-print_nat : (n : ℕ) (r : Bytes) → parse_nat (print_nat n ++ r) ≡ some (n, r)
unfolding parse_nat print_nat
parse-print_nat zero r = refl
parse-print_nat (suc n) r = rw (parse-print_nat n r)

parse-print_string : (s r : Bytes) → parse_string (print_string s ++ r) ≡ some (s, r)
unfolding parse_string print_string
parse-print_string [] r = refl
parse-print_string (c ∷ s) r = rw (parse-print_string s r)

parse-print_value : (v : Value) (r : Bytes) → parse_value (print_value v ++ r) ≡ some (v, r)
unfolding parse_value print_value
parse-print_value (str s) r = rw (parse-print_string s r)
parse-print_value (int (pos n)) r = rw (parse-print_nat n r)
parse-print_value (int (negsuc n)) r = rw (parse-print_nat n r)

parse-print_fields : (o : Fields) (f : ℕ) → length o < f → parse_fields f (print_fields o) ≡ some o
unfolding parse_fields print_fields
parse-print_fields [] zero h = absurd (omega arith)
parse-print_fields [] (suc f) h = refl
parse-print_fields ((k, v) ∷ o) zero h = absurd (omega arith)
parse-print_fields ((k, v) ∷ o) (suc f) h =
    rw (parse_fields, parse-print_string k (print_value v ++ print_fields o))
      (rw (parse-print_value v (print_fields o)) (rw (parse-print_fields o f (omega arith))))

length-print_fields : (o : Fields) → length o < length (print_fields o)
unfolding print_fields
length-print_fields [] = omega arith
length-print_fields ((k, v) ∷ o) = omega (
  arith,
  length-append (print_string k) (print_value v ++ print_fields o),
  length-append (print_value v) (print_fields o),
  length-print_fields o,
)

abbrev pub plain_objects : Jsonable
plain_objects = record {
  Object = Fields;
  empty = [];
  set_string = λ k v o. (k, str v) ∷ o;
  set_int64 = λ k n o. (k, int n) ∷ o;
  get_string = find_string;
  get_int64 = find_int;
  has_key = has_field;
  print = print_fields;
  parse = λ s. parse_fields (length s) s;
}

-- The text format keeps what the JSON library promises.
pub plain_objects_laws : JsonLaws plain_objects
unfolding find_string find_int has_field
plain_objects_laws = record {
  get_string-set_string = λ j k v o. refl;
  get_string-set_int64 = λ j k n o h. refl;
  get_int64-set_int64 = λ j k n o. refl;
  get_int64-set_string = λ j k v o h. refl;
  has_key-empty = λ j. refl;
  has_key-set_string = λ j k v o. refl;
  has_key-set_int64 = λ j k n o. refl;
  parse-print = λ o. parse-print_fields o (length (print_fields o)) (length-print_fields o);
}
