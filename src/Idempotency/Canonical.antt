-- ===== src/Idempotency/Canonical.antt =====
-- `canonicalize` of services/payment-service/src/services/idempotency/idempotency-service.ts: the
-- keys of every object are sorted. JavaScript sorts texts by their UTF-16 code units. A key that is
-- an array index, which an object moves to the front, does not occur.
use Prim.Native.Char.{code}
pub mod Order
use payment_orchestration_pl.Prelude.{
  ℕ, ◌+◌, ◌-◌, ◌/◌, ◌%◌, String, Bool, true, false, ◌&&◌, ◌||◌, List, [], ◌∷◌, ltb, nat_eq,
  if◌then◌else◌,
}
use payment_orchestration_pl.Json.{
  Json, null, bool, num, str, instant, arr, obj, Items, nil, cons, Fields, end, field,
}

-- A character outside the basic plane is a surrogate pair.
abbrev pub code_units : String → List ℕ
code_units String.[] = []
code_units (String.◌∷◌ c s) =
    if ltb (code c) 0x10000
    then code c ∷ code_units s
    else (0xd800 + (code c - 0x10000) / 0x400)
      ∷ (0xdc00 + (code c - 0x10000) % 0x400)
      ∷ code_units s

unfoldable pub units_le : List ℕ → List ℕ → Bool
units_le [] ys = true
units_le (x ∷ xs) [] = false
units_le (x ∷ xs) (y ∷ ys) = ltb x y || (nat_eq x y && units_le xs ys)

abbrev pub key_le : String → String → Bool
key_le a b = units_le (code_units a) (code_units b)

unfoldable pub place_field : String → Json → Fields → Fields
place_field k v end = field k v end
place_field k v (field j w fs) =
    if key_le k j then field k v (field j w fs) else field j w (place_field k v fs)

unfoldable pub sort_fields : Fields → Fields
unfolding place_field
sort_fields end = end
sort_fields (field k v fs) = place_field k v (sort_fields fs)

unfoldable mutual
  pub canonicalize : Json → Json
  canonicalize null = null
  canonicalize (bool b) = bool b
  canonicalize (num n) = num n
  canonicalize (str s) = str s
  canonicalize (instant t) = instant t
  canonicalize (arr xs) = arr (canonicalize_items xs)
  canonicalize (obj fs) = obj (sort_fields (canonicalize_fields fs))

  pub canonicalize_items : Items → Items
  canonicalize_items nil = nil
  canonicalize_items (cons x xs) = cons (canonicalize x) (canonicalize_items xs)

  pub canonicalize_fields : Fields → Fields
  canonicalize_fields end = end
  canonicalize_fields (field k v fs) = field k (canonicalize v) (canonicalize_fields fs)
