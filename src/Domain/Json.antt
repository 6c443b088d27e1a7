-- ===== src/Domain/Json.antt =====
-- Configuration values: what `json.loads` and YAML give, with Python floats as the 64 bits of their
-- IEEE 754 encoding.
use wifi_validation_framewor.Prelude.{
  ℕ, Bool, String, Option, none, some, ◌/◌, ◌%◌, ◌^◌, false, true, if◌then◌else◌, ◌==◌, ◌is◌,
}

-- A binary64 number, by its bits.
abbrev pub Float : Type 0
Float = ℕ

-- `math.isfinite`: the exponent field is not all ones.
unfoldable pub is_finite : Float → Bool
is_finite bits = if bits / 2 ^ 52 % 2048 == 2047 then false else true

pub data ℤ : Type 0 where
  pos : ℕ → ℤ
  negsuc : ℕ → ℤ

mutual
  pub data Json : Type 0 where
    null : Json
    bool : Bool → Json
    int : ℤ → Json
    float : Float → Json
    str : String → Json
    arr : Items → Json
    obj : Fields → Json

  pub data Items : Type 0 where
    no_items : Items
    item : Json → Items → Items

  pub data Fields : Type 0 where
    no_fields : Fields
    field : String → Json → Fields → Fields

-- `mapping.get(key)`, by the first pair: the keys of a mapping are distinct.
unfoldable pub entry : String → Fields → Option Json
entry key no_fields = none
entry key (field k v rest) = if k is key then some v else entry key rest
