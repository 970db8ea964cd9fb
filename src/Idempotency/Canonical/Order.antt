-- ===== src/Idempotency/Canonical/Order.antt =====
-- That the canonical form of services/payment-service/src/services/idempotency/idempotency-service.ts
-- does not depend on the order of an object's keys.
use payment_orchestration_pl.Prelude.{
  ℕ, String, ◌≡◌, refl, ap, sym, ◌∙◌, ◌⊎◌, inl, inr, true, false, List, [], ◌∷◌, arith,
}
use payment_orchestration_pl.Json.{Json, obj, Fields, end, field}
use payment_orchestration_pl.Idempotency.Canonical.{
  code_units, units_le, key_le, place_field, sort_fields, canonicalize, canonicalize_fields,
}
use payment_orchestration_pl.Idempotency.Service.{IdempotencyService, build_request_hash}

units_le-false : (xs ys : List ℕ) → units_le xs ys ≡ false → units_le ys xs ≡ true
unfolding units_le
units_le-false [] ys h = absurd (ground arith)
units_le-false (x ∷ xs) [] h = refl
units_le-false (x ∷ xs) (y ∷ ys) h = ground (arith, units_le-false xs ys)

units_le_trans :
    (xs ys zs : List ℕ) → units_le xs ys ≡ true → units_le ys zs ≡ true → units_le xs zs ≡ true
unfolding units_le
units_le_trans [] ys zs h k = refl
units_le_trans (x ∷ xs) [] zs h k = absurd (ground arith)
units_le_trans (x ∷ xs) (y ∷ ys) [] h k = absurd (ground arith)
units_le_trans (x ∷ xs) (y ∷ ys) (z ∷ zs) h k = ground (arith, units_le_trans xs ys zs)

-- One key comes before another, and not the other way round.
pub record Before (a b : String) : Type 0 where
  pub before : key_le a b ≡ true
  pub not_after : key_le b a ≡ false

place_field_comm :
    (a b : String) (v w : Json) (fs : Fields)
    → Before a b
    → place_field a v (place_field b w fs) ≡ place_field b w (place_field a v fs)
unfolding place_field
place_field_comm a b v w end h = ground (arith, h.before, h.not_after)
place_field_comm a b v w (field k x fs) h =
    let l = units_le_trans (code_units a) (code_units b) (code_units k) h.before in
    ground (
      arith,
      h.before,
      h.not_after,
      l,
      units_le-false (code_units b) (code_units k),
      units_le-false (code_units a) (code_units k),
      place_field_comm a b v w fs h,
    )

-- Keys that the order of code units tells apart.
abbrev pub Apart : String → String → Type 0
Apart a b = Before a b ⊎ Before b a

-- Bodies that differ only in the order of their objects' keys, at any depth below objects.
mutual
  pub data Reordered : Json → Json → Type 0 where
    same : (v : Json) → Reordered v v
    object : {fs gs : Fields} → ReorderedFields fs gs → Reordered (obj fs) (obj gs)

  pub data ReorderedFields : Fields → Fields → Type 0 where
    stay : (fs : Fields) → ReorderedFields fs fs
    swap :
        (a b : String) (v w : Json) (fs : Fields)
        → Apart a b
        → ReorderedFields (field a v (field b w fs)) (field b w (field a v fs))
    under :
        (k : String) {v w : Json} {fs gs : Fields}
        → Reordered v w
        → ReorderedFields fs gs
        → ReorderedFields (field k v fs) (field k w gs)
    chain :
        {fs gs hs : Fields} → ReorderedFields fs gs → ReorderedFields gs hs → ReorderedFields fs hs

place_field_swap :
    (a b : String) (v w : Json) (fs : Fields)
    → Apart a b
    → place_field a v (place_field b w fs) ≡ place_field b w (place_field a v fs)
place_field_swap a b v w fs (inl h) = place_field_comm a b v w fs h
place_field_swap a b v w fs (inr h) = sym (place_field_comm b a w v fs h)

mutual
  unfolding canonicalize sort_fields

  canonicalize-Reordered : {v w : Json} → Reordered v w → canonicalize v ≡ canonicalize w
  canonicalize-Reordered (same v) = refl
  canonicalize-Reordered (object r) = ap obj (sort_fields-Reordered r)

  sort_fields-Reordered :
      {fs gs : Fields}
      → ReorderedFields fs gs
      → sort_fields (canonicalize_fields fs) ≡ sort_fields (canonicalize_fields gs)
  sort_fields-Reordered (stay fs) = refl
  sort_fields-Reordered (swap a b v w fs h) =
      place_field_swap a b (canonicalize v) (canonicalize w) (sort_fields (canonicalize_fields fs))
        h
  sort_fields-Reordered (under k {v} {w} {fs} {gs} r q) =
      ap (λ x. place_field k x (sort_fields (canonicalize_fields fs))) (canonicalize-Reordered r)
      ∙ ap (place_field k (canonicalize w)) (sort_fields-Reordered q)
  sort_fields-Reordered (chain r q) = sort_fields-Reordered r ∙ sort_fields-Reordered q

-- Requests whose bodies differ only in the order of keys that the order of code units tells apart,
-- at any depth below objects, have the same hash.
pub build_request_hash-Reordered :
    (s : IdempotencyService) (v w : Json)
    → Reordered v w
    → build_request_hash s v ≡ build_request_hash s w
unfolding build_request_hash
build_request_hash-Reordered s v w r = ap s.digest (canonicalize-Reordered r)
