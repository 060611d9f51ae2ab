-- ===== src/Relay/Json.antt =====
-- The values that Go's JSON decoder makes of a document.
use serein.Base.{ℕ, ℤ, suc, Bool, String, str_eq, if◌then◌else◌}

-- A number is a float64, here the quotient of an integer and the successor of a natural number. A nil map is
-- a value of the type of maps.
mutual
  pub data Json : Type 0 where
    null nil_map : Json
    bool : Bool → Json
    number : ℤ → ℕ → Json
    text : String → Json
    array : Items → Json
    object : Fields → Json

  pub data Items : Type 0 where
    nil : Items
    cons : Json → Items → Items

  pub data Fields : Type 0 where
    end : Fields
    field : String → Json → Fields → Fields

abbrev pub count : Items → ℕ
count nil = 0
count (cons v vs) = suc (count vs)

abbrev pub size : Fields → ℕ
size end = 0
size (field k v fs) = suc (size fs)

-- `m[key]`, which is nil for a key that is missing.
abbrev pub lookup : String → Fields → Json
lookup key end = null
lookup key (field k v fs) = let rest = lookup key fs in if str_eq k key then v else rest
