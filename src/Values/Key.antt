-- ===== src/Values/Key.antt =====
-- `EncodeValueForDuplicateKey`, `CanonicalKey` and `Fields.DuplicateKey` (rules/value.go).
-- `strconv.Quote` and `strconv.FormatFloat(x, 'g', -1, 64)` are parameters.
use gess.Prelude.{
  if◌then◌else◌, Bool, true, false, not, ◌&&◌, List, [], ◌∷◌, ◌++◌, ℕ, zero, suc, ◌+◌, ◌-◌, ◌/◌,
  ◌%◌, ◌^◌, ltb, Text, codes,
}
use gess.Prelude.Int.{ℤ, pos, negsuc}
use gess.Values.{
  Float64, finite, infinite, nan, Value, Values, Fields, null_value, bool_value, int_value,
  float_value, string_value, list_value, map_value, no_values, value, no_fields, field,
}
use gess.Values.Numbers.{
  unit, magnitude, like, to_float, float_ltb, is_integral, compare_texts, below, equal, above,
}

-- The decimal digits of `n` before `out`; fuel of `n` is enough.
unfoldable pub digits : ℕ → ℕ → Text → Text
digits zero n out = (b'0' + n % 10) ∷ out
digits (suc f) n out = elim (ltb n 10) [
  | true ↦ (b'0' + n % 10) ∷ out
  | false ↦ digits f (n / 10) ((b'0' + n % 10) ∷ out)
]

-- `strconv.FormatInt(n, 10)`
unfoldable pub format_int : ℤ → Text
format_int (pos n) = digits n n []
format_int (negsuc n) = b'-' ∷ digits (suc n) (suc n) []

-- The whole number that an integral float is: `int64(x)`.
unfoldable pub whole : ℤ → ℤ
whole k = like k (magnitude k / unit)

abbrev pub max_exact : Float64
max_exact = to_float (pos (2 ^ 53))

abbrev pub min_exact : Float64
min_exact = to_float (negsuc (2 ^ 53 - 1))

-- The test of `numericDuplicateKey` on a finite float.
unfoldable pub is_whole : ℤ → Bool
is_whole k =
    is_integral (finite k)
    && not (float_ltb max_exact (finite k))
    && not (float_ltb (finite k) min_exact)

-- `sort.Strings` on the keys of a map, each with what is written of its value.
unfoldable pub insert_field : Text → Text → List (Text × Text) → List (Text × Text)
insert_field key v [] = (key, v) ∷ []
insert_field key v ((name, w) ∷ rest) = elim (compare_texts key name) [
  | below ↦ (key, v) ∷ (name, w) ∷ rest
  | equal ↦ (key, v) ∷ (name, w) ∷ rest
  | above ↦ (name, w) ∷ insert_field key v rest
]

unfoldable pub sort_fields : List (Text × Text) → List (Text × Text)
sort_fields [] = []
sort_fields ((key, v) ∷ rest) = insert_field key v (sort_fields rest)

-- The entries of a map, with commas between.
unfoldable pub write_entries : List (Text × Text) → Text
write_entries [] = []
write_entries ((key, v) ∷ []) = key ++ (b'=' ∷ v)
write_entries ((key, v) ∷ (next ∷ rest)) =
    key ++ (b'=' ∷ (v ++ (b',' ∷ write_entries (next ∷ rest))))

-- The fields of a fact, each behind its name and before a semicolon.
unfoldable pub write_fields : List (Text × Text) → Text
write_fields [] = []
write_fields ((key, v) ∷ rest) = key ++ (b'=' ∷ (v ++ (b';' ∷ write_fields rest)))

module _ (quote : Text → Text) (format_float : Float64 → Text) where
  unfoldable pub float_key : Float64 → Text
  float_key (finite k) =
      codes "number:" ++ (if is_whole k then format_int (whole k) else format_float (finite k))
  float_key (infinite negative) = codes "number:" ++ format_float (infinite negative)
  float_key nan = codes "number:" ++ format_float nan

  unfoldable mutual
    pub canonical_key : Value → Text
    canonical_key null_value = codes "null"
    canonical_key (bool_value true) = codes "bool:true"
    canonical_key (bool_value false) = codes "bool:false"
    canonical_key (int_value n) = codes "number:" ++ format_int n
    canonical_key (float_value x) = float_key x
    canonical_key (string_value s) = codes "string:" ++ quote s
    canonical_key (list_value vs) = codes "list[" ++ (item_keys vs ++ codes "]")
    canonical_key (map_value entries) =
        codes "map{" ++ (write_entries (sort_fields (field_keys entries)) ++ codes "}")

    -- The items of a list, with commas between.
    pub item_keys : Values → Text
    item_keys no_values = []
    item_keys (value v no_values) = canonical_key v
    item_keys (value v (value w vs)) = canonical_key v ++ (b',' ∷ item_keys (value w vs))

    pub field_keys : Fields → List (Text × Text)
    field_keys no_fields = []
    field_keys (field key v entries) = (key, canonical_key v) ∷ field_keys entries

  -- `Fields.DuplicateKey`
  unfoldable pub duplicate_key : Fields → Text
  duplicate_key entries = write_fields (sort_fields (field_keys entries))
