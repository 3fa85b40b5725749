-- ===== src/Values/Scaled.antt =====
-- Integers as floats, rounded and exactly (`float64(integer)` in rules/value.go).
use gess.Prelude.{
  true, Bool-cases, ℕ, zero, suc, ◌+◌, ◌*◌, ◌^◌, ◌<◌, ◌≤◌, ltb, ◌≡◌, refl, sym, inl, inr, arith,
  nat_eq, ltb→lt, lt→ltb,
}
use native.Mathlib.Nat.{add-mul, mul-mod_left, mul-le-mul_right}
use gess.Prelude.Int.{ℤ, pos, negsuc, pos_part, neg_part, int_ltb}
use gess.Values.{finite}
use gess.Values.Numbers.{
  unit, magnitude, like, spacing, round_to, to_float, scaled, in_exact_range, compare_ints,
  is_integral, flip,
}

pub unit-positive : 0 < unit
unfolding unit
unit-positive = omega arith

round_to-one : (m : ℕ) → round_to 1 m ≡ m
unfolding round_to
round_to-one m = ground arith

spacing_small : (m : ℕ) → ltb m (2 ^ 53 * 1) ≡ true → spacing 11 1 m ≡ 1
unfolding spacing
spacing_small m e = rw (spacing, e) refl

round_to-exact : (m : ℕ) → m ≤ 2 ^ 53 → round_to (spacing 11 1 m) m ≡ m
round_to-exact m h = elim (Bool-cases (ltb m (2 ^ 53 * 1))) [
  | inl e ↦ rw (spacing_small m e) (round_to-one m)
  | inr e ↦ let top : m ≡ 2 ^ 53 = ground arith in rw top (unfold round_to spacing in refl)
]

magnitude_bound : (n : ℤ) → in_exact_range n ≡ true → magnitude n ≤ 2 ^ 53
unfolding in_exact_range
magnitude_bound (pos n) h = ground arith
magnitude_bound (negsuc n) h = ground arith

pub to_float-scaled : (n : ℤ) → in_exact_range n ≡ true → to_float n ≡ finite (scaled n)
unfolding to_float scaled
to_float-scaled n h = rw (round_to-exact (magnitude n) (magnitude_bound n h)) refl

pos_part-scaled : (n : ℤ) → pos_part (scaled n) ≡ pos_part n * unit
unfolding scaled
pos_part-scaled (pos n) = refl
pos_part-scaled (negsuc n) = ground arith

neg_part-scaled : (n : ℤ) → neg_part (scaled n) ≡ neg_part n * unit
unfolding scaled
neg_part-scaled (pos n) = omega arith
neg_part-scaled (negsuc n) = ground arith

ltb_scaled : (u a b : ℕ) → 0 < u → ltb (a * u) (b * u) ≡ ltb a b
ltb_scaled u a b h = elim (Bool-cases (ltb a b)) [
  | inl e ↦
      let le : (a + 1) * u ≤ b * u = mul-le-mul_right u (omega (arith, ltb→lt a b e)) in
      rw e (lt→ltb (a * u) (b * u) (omega (arith, le, add-mul a 1 u)))
  | inr e ↦ let le : b * u ≤ a * u = mul-le-mul_right u (ground arith) in rw e (ground arith)
]

pub int_ltb-scaled : (a b : ℤ) → int_ltb (scaled a) (scaled b) ≡ int_ltb a b
int_ltb-scaled a b =
    rw (pos_part-scaled a, neg_part-scaled a, pos_part-scaled b, neg_part-scaled b)
      (rw
        (sym (add-mul (pos_part a) (neg_part b) unit), sym (add-mul (pos_part b) (neg_part a) unit))
        (ltb_scaled unit (pos_part a + neg_part b) (pos_part b + neg_part a) unit-positive))

pub compare_ints-scaled : (a b : ℤ) → compare_ints (scaled a) (scaled b) ≡ compare_ints a b
unfolding compare_ints
compare_ints-scaled a b = rw (int_ltb-scaled a b, int_ltb-scaled b a) refl

pub compare_ints-flip : (a b : ℤ) → flip (compare_ints a b) ≡ compare_ints b a
unfolding compare_ints
compare_ints-flip a b = ground arith

pub magnitude-like : (n : ℤ) (m : ℕ) → magnitude (like n m) ≡ m
magnitude-like (pos n) m = refl
magnitude-like (negsuc n) zero = refl
magnitude-like (negsuc n) (suc m) = refl

pub is_integral-scaled : (n : ℤ) → is_integral (finite (scaled n)) ≡ true
unfolding is_integral scaled
is_integral-scaled n =
    rw (magnitude-like n (magnitude n * unit), mul-mod_left (magnitude n) unit) refl
