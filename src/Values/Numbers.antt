-- ===== src/Values/Numbers.antt =====
-- The comparison of numbers (rules/value.go).
use gess.Prelude.{
  if◌then◌else◌, Bool, true, false, not, ◌&&◌, ◌||◌, ℕ, zero, suc, ◌+◌, ◌*◌, ◌-◌, ◌/◌, ◌%◌, ◌^◌,
  ltb, [], ◌∷◌, ◌==◌, nat_eq, Text,
}
use gess.Prelude.Int.{ℤ, pos, negsuc, int_ltb, int_beq}
use gess.Values.{Float64, finite, infinite, nan, Value, int_value, float_value, string_value}

-- 1, as a multiple of the least positive float64.
unfoldable pub unit : ℕ
unit = 2 ^ 1074

abbrev pub magnitude : ℤ → ℕ
magnitude (pos n) = n
magnitude (negsuc n) = suc n

-- A magnitude with the sign of an integer.
abbrev pub like : ℤ → ℕ → ℤ
like (pos n) m = pos m
like (negsuc n) zero = pos 0
like (negsuc n) (suc m) = negsuc m

-- The distance of the floats around `m`, whose significands have 53 bits; eleven doublings cover the
-- magnitudes below 2 ^ 64.
unfoldable pub spacing : ℕ → ℕ → ℕ → ℕ
spacing zero s m = s
spacing (suc f) s m = elim (ltb m (2 ^ 53 * s)) [ true ↦ s | false ↦ spacing f (2 * s) m ]

-- `m` rounded to a multiple of `s`, to even where two are as near.
unfoldable pub round_to : ℕ → ℕ → ℕ
round_to s m =
    let q = m / s in
    let r = m % s in if ltb (2 * r) s || (2 * r == s && q % 2 == 0) then q * s else (q + 1) * s

-- The conversion `float64(n)`.
unfoldable pub to_float : ℤ → Float64
to_float n = finite (like n (round_to (spacing 11 1 (magnitude n)) (magnitude n) * unit))

-- `n`, exactly, as a multiple of the least positive float64.
unfoldable pub scaled : ℤ → ℤ
scaled n = like n (magnitude n * unit)

-- The operators < and == of float64.
unfoldable pub float_ltb : Float64 → Float64 → Bool
float_ltb (finite a) (finite b) = int_ltb a b
float_ltb (finite a) (infinite negative) = not negative
float_ltb (infinite negative) (finite b) = negative
float_ltb (infinite m) (infinite n) = m && not n
float_ltb (finite a) nan = false
float_ltb (infinite m) nan = false
float_ltb nan y = false

unfoldable pub float_beq : Float64 → Float64 → Bool
float_beq (finite a) (finite b) = int_beq a b
float_beq (infinite true) (infinite n) = n
float_beq (infinite false) (infinite n) = not n
float_beq (finite a) (infinite n) = false
float_beq (infinite m) (finite b) = false
float_beq (finite a) nan = false
float_beq (infinite m) nan = false
float_beq nan y = false

-- `math.Trunc(x) == x`
unfoldable pub is_integral : Float64 → Bool
is_integral (finite k) = magnitude k % unit == 0
is_integral (infinite n) = true
is_integral nan = false

-- Go's -1, 0 and 1.
pub data Order : Type 0 where
  below equal above : Order

abbrev pub flip : Order → Order
flip below = above
flip equal = equal
flip above = below

-- What a comparison of values gives: an order, `false`, or a panic (`SetFloat64` of a NaN).
pub data Compared : Type 0 where
  ordered : Order → Compared
  unordered panics : Compared

abbrev pub flipped : Compared → Compared
flipped (ordered o) = ordered (flip o)
flipped unordered = unordered
flipped panics = panics

unfoldable pub compare_ints : ℤ → ℤ → Order
compare_ints a b = if int_ltb a b then below else if int_ltb b a then above else equal

unfoldable pub compare_floats : Float64 → Float64 → Order
compare_floats x y = if float_ltb x y then below else if float_ltb y x then above else equal

-- `big.Float` of 256 bits holds any int64 and any float64 exactly.
unfoldable pub compare_numeric_values_slow : ℤ → Float64 → Compared
compare_numeric_values_slow n (finite k) = ordered (compare_ints (scaled n) k)
compare_numeric_values_slow n (infinite negative) = ordered (if negative then above else below)
compare_numeric_values_slow n nan = panics

-- `integer >= -maxExactFloatInt && integer <= maxExactFloatInt`
unfoldable pub in_exact_range : ℤ → Bool
in_exact_range n = not (int_ltb n (negsuc (2 ^ 53 - 1))) && not (int_ltb (pos (2 ^ 53)) n)

unfoldable pub compare_int_and_float_values : ℤ → Float64 → Compared
compare_int_and_float_values n x =
    if in_exact_range n
    then ordered (compare_floats (to_float n) x)
    else compare_numeric_values_slow n x

abbrev pub is_equal : Compared → Bool
is_equal (ordered equal) = true
is_equal _ = false

unfoldable pub int_equals_float : ℤ → Float64 → Bool
int_equals_float n nan = false
int_equals_float n (infinite negative) = false
int_equals_float n (finite k) =
    if in_exact_range n
    then is_integral (finite k) && float_beq (to_float n) (finite k)
    else is_equal (compare_numeric_values_slow n (finite k))

unfoldable pub numeric_values_equal : Value → Value → Bool
numeric_values_equal (int_value a) (int_value b) = int_beq a b
numeric_values_equal (float_value x) (float_value y) = float_beq x y
numeric_values_equal (int_value a) (float_value y) = int_equals_float a y
numeric_values_equal (float_value x) (int_value b) = int_equals_float b x
numeric_values_equal _ _ = false

-- `strings.Compare`, by bytes, which for UTF-8 is by code points.
unfoldable pub compare_texts : Text → Text → Order
compare_texts [] [] = equal
compare_texts [] (d ∷ t) = below
compare_texts (c ∷ s) [] = above
compare_texts (c ∷ s) (d ∷ t) =
    if ltb c d then below else if ltb d c then above else compare_texts s t

unfoldable pub compare_values : Value → Value → Compared
compare_values (string_value s) (string_value t) = ordered (compare_texts s t)
compare_values (int_value a) (int_value b) = ordered (compare_ints a b)
compare_values (int_value a) (float_value y) = compare_int_and_float_values a y
compare_values (float_value x) (int_value b) = flipped (compare_int_and_float_values b x)
compare_values (float_value x) (float_value y) = ordered (compare_floats x y)
compare_values _ _ = unordered
