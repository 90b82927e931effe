-- ===== src/Json.antt =====
-- The class `json::Jsonable` of the JSON library, as the data types use it. It is a third-party
-- library, so its calls are a parameter. A getter and the parser may throw, which is `none`.
use durastash.Prelude.{◌≡◌, Bool, false, ◌||◌, Option, none, some, Bytes, ℤ, if◌then◌else◌}
use durastash.Prelude.Text.{bytes_eq}

pub record Jsonable : Type 1 where
  pub Object : Type 0
  pub empty : Object
  pub set_string : Bytes → Bytes → Object → Object
  pub set_int64 : Bytes → ℤ → Object → Object
  pub get_string : Bytes → Object → Option Bytes
  pub get_int64 : Bytes → Object → Option ℤ
  pub has_key : Bytes → Object → Bool
  pub print : Object → Bytes
  pub parse : Bytes → Option Object

-- An object is a map from keys to values, and printing keeps it.
pub record JsonLaws (js : Jsonable) : Type 0 where
  pub get_string-set_string :
      (j k v : Bytes) (o : js.Object)
      → js.get_string j (js.set_string k v o) ≡ (if bytes_eq k j then some v else js.get_string j o)
  pub get_string-set_int64 :
      (j k : Bytes) (n : ℤ) (o : js.Object)
      → bytes_eq k j ≡ false
      → js.get_string j (js.set_int64 k n o) ≡ js.get_string j o
  pub get_int64-set_int64 :
      (j k : Bytes) (n : ℤ) (o : js.Object)
      → js.get_int64 j (js.set_int64 k n o) ≡ (if bytes_eq k j then some n else js.get_int64 j o)
  pub get_int64-set_string :
      (j k v : Bytes) (o : js.Object)
      → bytes_eq k j ≡ false
      → js.get_int64 j (js.set_string k v o) ≡ js.get_int64 j o
  pub has_key-empty : (j : Bytes) → js.has_key j js.empty ≡ false
  pub has_key-set_string :
      (j k v : Bytes) (o : js.Object)
      → js.has_key j (js.set_string k v o) ≡ (bytes_eq k j || js.has_key j o)
  pub has_key-set_int64 :
      (j k : Bytes) (n : ℤ) (o : js.Object)
      → js.has_key j (js.set_int64 k n o) ≡ (bytes_eq k j || js.has_key j o)
  pub parse-print : (o : js.Object) → js.parse (js.print o) ≡ some o

module _ {A B : Type 0} where
  infixl 5 ◌>>=◌
  -- A chain of getters: the first that throws ends it.
  abbrev pub ◌>>=◌ : Option A → (A → Option B) → Option B
  none >>= f = none
  some a >>= f = f a
