-- ===== src/Values.antt =====
-- The values of fields and expressions (`Value`, `Equal`, `CanonicalKey` of rules/value.go), the kinds
-- of rules/value_kind.go as constructors.
pub mod Numbers
pub mod Scaled
pub mod Exact
pub mod Equality
pub mod Key
pub mod Decimal
pub mod KeyTexts
pub mod KeyShapes
pub mod KeyNumbers
pub mod KeyLaws
pub mod EqualKeys
pub mod Equivalence
pub mod Names
pub mod Symmetry
pub mod Collisions
mod Tests
use gess.Prelude.{Bool, Text}
use gess.Prelude.Int.{ℤ}

-- A float64, as a multiple of the least positive one, 2 ^ -1074. The two zeros are one value.
pub data Float64 : Type 0 where
  finite : ℤ → Float64
  infinite : (negative : Bool) → Float64
  nan : Float64

mutual
  pub data Value : Type 0 where
    null_value : Value
    bool_value : Bool → Value
    int_value : ℤ → Value
    float_value : Float64 → Value
    string_value : Text → Value
    list_value : Values → Value
    map_value : Fields → Value

  pub data Values : Type 0 where
    no_values : Values
    value : Value → Values → Values

  -- A Go map, its entries in any order.
  pub data Fields : Type 0 where
    no_fields : Fields
    field : Text → Value → Fields → Fields
