-- ===== src/Values/Equality.antt =====
-- `Value.Equal` (rules/value.go).
use gess.Prelude.{
  if◌then◌else◌, Bool, true, false, ◌&&◌, Option, none, some, ℕ, suc, ◌==◌, nat_eq, list_eq, Text,
}
use gess.Values.{
  Value, Values, Fields, null_value, bool_value, int_value, float_value, string_value, list_value,
  map_value, no_values, value, no_fields, field,
}
use gess.Values.Numbers.{numeric_values_equal}

unfoldable pub field_of : Text → Fields → Option Value
field_of key no_fields = none
field_of key (field name v entries) = if name == key then some v else field_of key entries

abbrev pub count_fields : Fields → ℕ
count_fields no_fields = 0
count_fields (field name v entries) = suc (count_fields entries)

abbrev pub bool_beq : Bool → Bool → Bool
bool_beq true true = true
bool_beq false false = true
bool_beq _ _ = false

unfoldable mutual
  pub equals : Value → Value → Bool
  equals null_value null_value = true
  equals null_value _ = false
  equals (bool_value b) (bool_value c) = bool_beq b c
  equals (bool_value b) _ = false
  equals (int_value n) other = numeric_values_equal (int_value n) other
  equals (float_value x) other = numeric_values_equal (float_value x) other
  equals (string_value s) (string_value t) = s == t
  equals (string_value s) _ = false
  equals (list_value left) (list_value right) = equals_items left right
  equals (list_value left) _ = false
  equals (map_value left) (map_value right) =
      count_fields left == count_fields right && equals_fields left right
  equals (map_value left) _ = false

  -- The lengths are equal and the loop over the items finds no difference.
  pub equals_items : Values → Values → Bool
  equals_items no_values no_values = true
  equals_items no_values (value w ws) = false
  equals_items (value v vs) no_values = false
  equals_items (value v vs) (value w ws) = equals v w && equals_items vs ws

  -- The loop over the entries of the left map; `Fields.Equal` runs it too.
  pub equals_fields : Fields → Fields → Bool
  equals_fields no_fields right = true
  equals_fields (field key v left) right = elim (field_of key right) [
    | none ↦ false
    | some w ↦ equals v w && equals_fields left right
  ]

-- `Fields.Equal`
unfoldable pub fields_equal : Fields → Fields → Bool
fields_equal left right = count_fields left == count_fields right && equals_fields left right
