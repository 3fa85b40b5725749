-- ===== src/Values/Exact.antt =====
-- The numbers that values stand for, and the comparison of values (rules/value.go).
use gess.Prelude.{
  Bool, true, false, Bool-cases, ◌&&◌, Option, none, some, ◌≡◌, refl, sym, ◌∙◌, ap, subst, ◌↔◌, ◌⊎◌,
  inl, inr, arith, nat_eq,
}
use gess.Prelude.Int.{ℤ, int_beq}
use gess.Values.{Float64, finite, infinite, nan, Value, int_value, float_value}
use gess.Values.Equality.{equals}
use gess.Values.Numbers.{
  scaled, in_exact_range, compare_ints, compare_floats, compare_values,
  compare_int_and_float_values, compare_numeric_values_slow, ordered, numeric_values_equal,
  int_equals_float, is_integral, float_beq, float_ltb, flipped, is_equal,
}
use gess.Values.Scaled.{to_float-scaled, compare_ints-scaled, compare_ints-flip, is_integral-scaled}

compare_floats-finite : (j k : ℤ) → compare_floats (finite j) (finite k) ≡ compare_ints j k
unfolding compare_floats compare_ints float_ltb
compare_floats-finite j k = refl

-- The number that a value holds, an integer as a float of any size.
unfoldable pub number_of : Value → Option Float64
number_of (int_value n) = some (finite (scaled n))
number_of (float_value x) = some x
number_of _ = none

compare_int_and_float_values-finite :
    (n k : ℤ) → compare_int_and_float_values n (finite k) ≡ ordered (compare_ints (scaled n) k)
unfolding compare_int_and_float_values compare_numeric_values_slow
compare_int_and_float_values-finite n k = elim (Bool-cases (in_exact_range n)) [
  | inl e ↦ rw e (
      ap (λ x. ordered (compare_floats x (finite k))) (to_float-scaled n e)
      ∙ ap ordered (compare_floats-finite (scaled n) k))
  | inr e ↦ rw e refl
]

Holds : Value → ℤ → Type 0
Holds v a = ((n : ℤ) × (v ≡ int_value n) × (a ≡ scaled n)) ⊎ (v ≡ float_value (finite a))

number_of-Holds : (v : Value) (a : ℤ) → number_of v ≡ some (finite a) → Holds v a
unfolding number_of Holds
number_of-Holds (int_value n) a h = inl (n, refl, cc)
number_of-Holds (float_value x) a h = inr (cc)
number_of-Holds _ a h = cc

compare-Holds :
    (l r : Value) (a b : ℤ)
    → Holds l a
    → Holds r b
    → compare_values l r ≡ ordered (compare_ints a b)
unfolding compare_values Holds
compare-Holds l r a b (inl (m, e, p)) (inl (n, d, q)) =
    rw (e, d, p, q) (ap ordered (sym (compare_ints-scaled m n)))
compare-Holds l r a b (inl (m, e, p)) (inr d) =
    rw (e, d, p) (compare_int_and_float_values-finite m b)
compare-Holds l r a b (inr e) (inl (n, d, q)) =
    rw (e, d, q)
      (ap flipped (compare_int_and_float_values-finite n a)
        ∙ ap ordered (compare_ints-flip (scaled n) a))
compare-Holds l r a b (inr e) (inr d) = rw (e, d) (ap ordered (compare_floats-finite a b))

compare_values-number_of :
    (l r : Value) (a b : ℤ)
    → number_of l ≡ some (finite a)
    → number_of r ≡ some (finite b)
    → compare_values l r ≡ ordered (compare_ints a b)
compare_values-number_of l r a b h k =
    compare-Holds l r a b (number_of-Holds l a h) (number_of-Holds r b k)

pub int_beq_iff : (a b : ℤ) → (int_beq a b ≡ true) ↔ (a ≡ b)
int_beq_iff a b = ground arith

guarded_beq :
    (a k : ℤ)
    → is_integral (finite a) ≡ true
    → (is_integral (finite k) && float_beq (finite a) (finite k)) ≡ int_beq a k
unfolding float_beq
guarded_beq a k h = elim (Bool-cases (int_beq a k)) [
  | inl e ↦
      subst (λ b. (is_integral (finite b) && int_beq a b) ≡ int_beq a b) ((int_beq_iff a k).0 e)
        (rw h refl)
  | inr e ↦ ground arith
]

is_equal-compare_ints : (a b : ℤ) → is_equal (ordered (compare_ints a b)) ≡ int_beq a b
unfolding compare_ints
is_equal-compare_ints a b = ground arith

int_equals_float-finite : (n k : ℤ) → int_equals_float n (finite k) ≡ int_beq (scaled n) k
unfolding int_equals_float compare_numeric_values_slow
int_equals_float-finite n k = elim (Bool-cases (in_exact_range n)) [
  | inl e ↦ rw (e, to_float-scaled n e) (guarded_beq (scaled n) k (is_integral-scaled n))
  | inr e ↦ rw e (is_equal-compare_ints (scaled n) k)
]

int_beq-scaled : (a b : ℤ) → int_beq (scaled a) (scaled b) ≡ int_beq a b
int_beq-scaled a b =
    sym (is_equal-compare_ints (scaled a) (scaled b))
    ∙ ap (λ o. is_equal (ordered o)) (compare_ints-scaled a b)
    ∙ is_equal-compare_ints a b

int_beq_sym : (a b : ℤ) → int_beq a b ≡ int_beq b a
int_beq_sym a b = ground arith

abbrev pub same_number : Option Float64 → Option Float64 → Bool
same_number (some x) (some y) = float_beq x y
same_number _ _ = false

int_float_same : (n : ℤ) (x : Float64) → int_equals_float n x ≡ float_beq (finite (scaled n)) x
unfolding float_beq
int_float_same n (finite k) = int_equals_float-finite n k
int_float_same n (infinite b) = unfold int_equals_float in refl
int_float_same n nan = unfold int_equals_float in refl

pub float_beq_sym : (x y : Float64) → float_beq x y ≡ float_beq y x
unfolding float_beq
float_beq_sym (finite a) (finite b) = int_beq_sym a b
float_beq_sym (infinite true) (infinite true) = refl
float_beq_sym (infinite false) (infinite true) = refl
float_beq_sym (infinite true) nan = refl
float_beq_sym (infinite false) nan = refl
float_beq_sym _ (infinite true) = refl
float_beq_sym _ (infinite false) = refl
float_beq_sym (infinite true) _ = refl
float_beq_sym (infinite false) _ = refl
float_beq_sym _ _ = refl

-- Floats that are equal for Go are one float.
pub float_beq_sound : (x y : Float64) → float_beq x y ≡ true → x ≡ y
unfolding float_beq
float_beq_sound (finite a) (finite b) h = ap finite ((int_beq_iff a b).0 h)
float_beq_sound (infinite true) (infinite true) h = refl
float_beq_sound (infinite false) (infinite false) h = refl
float_beq_sound (infinite true) (infinite false) h = cc
float_beq_sound (infinite false) (infinite true) h = cc
float_beq_sound (infinite true) _ h = cc
float_beq_sound (infinite false) _ h = cc
float_beq_sound _ _ h = cc

-- Numbers in values are equal where the numbers that they hold are.
pub numeric_values_equal_lem :
    (l r : Value) → numeric_values_equal l r ≡ same_number (number_of l) (number_of r)
unfolding numeric_values_equal number_of
numeric_values_equal_lem (int_value a) (int_value b) = unfold float_beq in sym (int_beq-scaled a b)
numeric_values_equal_lem (int_value a) (float_value y) = int_float_same a y
numeric_values_equal_lem (float_value x) (int_value b) =
    int_float_same b x ∙ float_beq_sym (finite (scaled b)) x
numeric_values_equal_lem (float_value x) (float_value y) = refl
numeric_values_equal_lem _ _ = refl

equals-number_of :
    (l r : Value) (a b : ℤ)
    → number_of l ≡ some (finite a)
    → number_of r ≡ some (finite b)
    → equals l r ≡ int_beq a b
unfolding number_of equals float_beq
equals-number_of (int_value m) r a b h k =
    numeric_values_equal_lem (int_value m) r
    ∙ ap (λ o. same_number (some (finite (scaled m))) o) k
    ∙ ap (λ o. same_number o (some (finite b))) h
equals-number_of (float_value x) r a b h k =
    numeric_values_equal_lem (float_value x) r
    ∙ ap (λ o. same_number (some x) o) k
    ∙ ap (λ o. same_number o (some (finite b))) h
equals-number_of _ r a b h k = cc

-- Values that hold numbers, integers or finite floats of whatever size, are compared exactly as the
-- numbers are, and are equal exactly where the numbers are.
pub compare_values-equals :
    (l r : Value) (a b : ℤ)
    → number_of l ≡ some (finite a)
    → number_of r ≡ some (finite b)
    → (compare_values l r ≡ ordered (compare_ints a b)) × ((equals l r ≡ true) ↔ (a ≡ b))
compare_values-equals l r a b h k =
    (compare_values-number_of l r a b h k, rw (equals-number_of l r a b h k) (int_beq_iff a b))
