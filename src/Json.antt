-- ===== src/Json.antt =====
-- The JSON values that the services hash, store and send. The numbers that occur are natural, and
-- an ISO timestamp is kept as the instant that it shows, in milliseconds.
use payment_orchestration_pl.Prelude.{ℕ, String, Bool, Option, none, some, ◌==◌, if◌then◌else◌}

mutual
  pub data Json : Type 0 where
    null : Json
    bool : Bool → Json
    num : ℕ → Json
    str : String → Json
    instant : ℕ → Json
    arr : Items → Json
    obj : Fields → Json

  pub data Items : Type 0 where
    nil : Items
    cons : Json → Items → Items

  pub data Fields : Type 0 where
    end : Fields
    field : String → Json → Fields → Fields

-- An object literal that begins with a spread.
infixr 67 ◌<+>◌
abbrev pub ◌<+>◌ : Fields → Fields → Fields
end <+> gs = gs
field k v fs <+> gs = field k v (fs <+> gs)

-- `value?.name`, for a value that is no text and no array with such a property.
abbrev pub member_of : String → Fields → Option Json
member_of name end = none
member_of name (field key v fs) = if key == name then some v else member_of name fs

abbrev pub member : String → Json → Option Json
member name (obj fs) = member_of name fs
member name _ = none

-- `value.name = v`, for an object.
abbrev pub set_member_of : String → Json → Fields → Fields
set_member_of name v end = field name v end
set_member_of name v (field key w fs) =
    if key == name then field key v fs else field key w (set_member_of name v fs)

abbrev pub set_member : String → Json → Json → Json
set_member name v (obj fs) = obj (set_member_of name v fs)
set_member name v x = x
