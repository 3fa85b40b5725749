-- ===== src/Values/Tests.antt =====
-- Comparisons and keys of values (rules/value_compare_test.go, rules/value_test.go), and the theorems at
-- concrete values.
use gess.Prelude.{
  true, false, [], ◌∷◌, ◌+◌, ◌^◌, ◌≡◌, ◌≢◌, refl, ap, ◌↔◌, Text, codes, nat_eq, list_eq, list_beq,
  arith, drop,
}
use gess.Prelude.Int.{ℤ, pos}
use gess.Values.{
  Float64, finite, nan, Value, Fields, null_value, int_value, float_value, string_value, list_value,
  map_value, no_values, value, no_fields, field,
}
use gess.Values.Numbers.{
  unit, scaled, ordered, above, panics, compare_values, compare_ints, compare_numeric_values_slow,
  compare_int_and_float_values, in_exact_range, compare_texts, to_float, round_to, spacing,
  float_ltb, float_beq, is_integral, int_equals_float, numeric_values_equal,
}
use gess.Values.Exact.{number_of, compare_values-equals}
use gess.Values.Equality.{equals, field_of}
use gess.Values.Names.{is_map}
use gess.Values.Symmetry.{equals-equivalence}
use gess.Values.Key.{
  canonical_key, duplicate_key, format_int, float_key, write_entries, write_fields, sort_fields,
  insert_field, digits, whole, is_whole,
}
use gess.Values.Decimal.{format_int-none_of, format_int-injective}
use gess.Values.KeyTexts.{Formats, is_key_end}
use gess.Values.KeyLaws.{canonical_key-equals, is_plain}
use gess.Values.EqualKeys.{equals-canonical_key, equals-other_key, is_exact, has_no_map}
use gess.Values.Collisions.{merged, canonical_key-collides}
use gess.Sexp.Layout.{none_of}
use gess.Sexp.Layout.Quoting.{quote, quoting}

-- A format that marks every finite float by an exponent.
abbrev format_float : Float64 → Text
format_float (finite k) = b'e' ∷ format_int k
format_float _ = []

formats : Formats format_float
unfolding none_of
formats = record {
  clean = λ k. format_int-none_of is_key_end (λ d l. ground arith) refl k;
  marked = λ k h. refl;
  exact = λ j k h. format_int-injective j k (ap (drop 1) h);
}

abbrev key : Value → Text
key = canonical_key quote format_float

abbrev huge : ℤ
huge = pos (2 ^ 53 + 1)

compare_huge :
    compare_values (int_value huge) (float_value (finite (scaled (pos (2 ^ 53))))) ≡ ordered above
unfolding compare_values compare_int_and_float_values in_exact_range compare_numeric_values_slow
    compare_ints scaled unit
compare_huge = refl

round_huge : to_float huge ≡ finite (scaled (pos (2 ^ 53)))
unfolding to_float round_to spacing scaled unit
round_huge = refl

compare_nan : compare_values (int_value huge) (float_value nan) ≡ panics
unfolding compare_values compare_int_and_float_values in_exact_range compare_numeric_values_slow
compare_nan = refl

sample_map : Fields
sample_map =
    field (codes "b") (string_value (codes "two")) (field (codes "a") (int_value (pos 1)) no_fields)

key_of_map : key (map_value sample_map) ≡ codes "map{a=number:1,b=string:\"two\"}"
unfolding canonical_key sample_map format_int write_entries sort_fields insert_field compare_texts
    digits
key_of_map = refl

duplicate_key_of_map :
    duplicate_key quote format_float sample_map ≡ codes "a=number:1;b=string:\"two\";"
unfolding duplicate_key canonical_key sample_map format_int write_fields sort_fields insert_field
    compare_texts digits
duplicate_key_of_map = refl

compare_values-equals_example :
    (compare_values (int_value huge) (float_value (finite (scaled (pos (2 ^ 53)))))
      ≡ ordered (compare_ints (scaled huge) (scaled (pos (2 ^ 53)))))
    × ((equals (int_value huge) (float_value (finite (scaled (pos (2 ^ 53))))) ≡ true)
        ↔ (scaled huge ≡ scaled (pos (2 ^ 53))))
unfolding number_of
compare_values-equals_example =
    compare_values-equals (int_value huge) (float_value (finite (scaled (pos (2 ^ 53)))))
      (scaled huge) (scaled (pos (2 ^ 53))) refl refl

abbrev pair : Value → Value
pair v = list_value (value (string_value (codes "a,b")) (value v no_values))

canonical_key-equals_example :
    equals (pair (int_value (pos 1))) (pair (float_value (finite (scaled (pos 1))))) ≡ true
unfolding is_plain canonical_key float_key format_int scaled unit digits whole is_whole is_integral
    float_ltb to_float spacing round_to
canonical_key-equals_example =
    canonical_key-equals quoting formats (pair (int_value (pos 1)))
      (pair (float_value (finite (scaled (pos 1))))) refl refl refl

equals-canonical_key_example :
    key (pair (int_value (pos 1))) ≡ key (pair (float_value (finite (scaled (pos 1)))))
unfolding has_no_map is_exact in_exact_range equals numeric_values_equal int_equals_float
    is_integral float_beq to_float spacing round_to scaled unit list_beq
equals-canonical_key_example =
    equals-canonical_key quote format_float (pair (int_value (pos 1)))
      (pair (float_value (finite (scaled (pos 1))))) refl refl refl refl

-- Past 2 ^ 53, and a float64.
abbrev huge_float : ℤ
huge_float = pos (2 ^ 53 + 2)

equals-other_key_example :
    (equals (int_value huge_float) (float_value (finite (scaled huge_float))) ≡ true)
    × (key (int_value huge_float) ≢ key (float_value (finite (scaled huge_float))))
unfolding in_exact_range
equals-other_key_example = equals-other_key formats quote huge_float refl

canonical_key-collides_example :
    (key (map_value (field (codes "a") null_value (field (codes "b") null_value no_fields)))
      ≡ key (
          map_value (
            field
              (merged quote format_float (codes ",") (codes "a") null_value (codes "b"))
              null_value
              no_fields)))
    × (equals (map_value (field (codes "a") null_value (field (codes "b") null_value no_fields))) (
          map_value (
            field
              (merged quote format_float (codes ",") (codes "a") null_value (codes "b"))
              null_value
              no_fields))
        ≡ false)
unfolding compare_texts
canonical_key-collides_example =
    canonical_key-collides quote format_float (codes "a") (codes "b") null_value null_value refl

turned_map : Fields
turned_map =
    field (codes "a") (float_value (finite (scaled (pos 1))))
      (field (codes "b") (string_value (codes "two")) no_fields)

equals-equivalence_example :
    (equals (map_value turned_map) (map_value sample_map) ≡ true)
    × (equals (map_value sample_map) null_value ≡ equals (map_value turned_map) null_value)
unfolding sample_map turned_map is_map field_of equals numeric_values_equal int_equals_float
    is_integral float_beq in_exact_range to_float spacing round_to scaled unit list_beq
equals-equivalence_example =
    equals-equivalence (map_value sample_map) (map_value turned_map) null_value refl refl refl
