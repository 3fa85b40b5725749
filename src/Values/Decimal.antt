-- ===== src/Values/Decimal.antt =====
-- `strconv.FormatInt` in base ten, and the test of `numericDuplicateKey` (rules/value.go).
use gess.Prelude.{
  Bool, true, false, Bool-cases, [], ◌∷◌, ℕ, zero, suc, ◌+◌, ◌-◌, ◌*◌, ◌/◌, ◌%◌, ◌^◌, ◌<◌, ◌≤◌, ltb,
  ◌==◌, nat_eq, ◌≡◌, refl, sym, ◌∙◌, ap, inl, inr, arith, Text, nat_beq_iff,
}
use native.Mathlib.Nat.{add-mul, div-mul_cancel, dvd_of_mod-eq-zero, mul-div_cancel}
use gess.Prelude.Int.{ℤ, pos, negsuc}
use gess.Values.{finite}
use gess.Values.Numbers.{unit, magnitude, like, scaled, in_exact_range, float_ltb, is_integral}
use gess.Values.Scaled.{
  unit-positive, to_float-scaled, is_integral-scaled, int_ltb-scaled, magnitude-like,
}
use gess.Values.Key.{digits, format_int, whole, is_whole}
use gess.Sexp.Layout.{none_of}

-- The number that digits stand for, behind the digits of `n`.
text_number : ℕ → Text → ℕ
text_number n [] = n
text_number n (c ∷ s) = text_number (n * 10 + (c - b'0')) s

digits_small :
    (f n : ℕ) (out : Text) → ltb n 10 ≡ true → digits (suc f) n out ≡ (b'0' + n % 10) ∷ out
unfolding digits
digits_small f n out e = rw (digits, e) refl

digits_large :
    (f n : ℕ) (out : Text)
    → ltb n 10 ≡ false
    → digits (suc f) n out ≡ digits f (n / 10) ((b'0' + n % 10) ∷ out)
unfolding digits
digits_large f n out e = rw (digits, e) refl

text_number-digits :
    (f n : ℕ) (out : Text) → n ≤ f → text_number 0 (digits f n out) ≡ text_number n out
unfolding text_number
text_number-digits zero n out h = unfold digits in ap (λ m. text_number m out) (omega arith)
text_number-digits (suc f) n out h = elim (Bool-cases (ltb n 10)) [
  | inl e ↦ rw (digits_small f n out e) (ap (λ m. text_number m out) (ground arith))
  | inr e ↦ rw (digits_large f n out e) (
      text_number-digits f (n / 10) ((b'0' + n % 10) ∷ out) (ground arith)
      ∙ ap (λ m. text_number m out) (omega arith))
]

digits-injective : (m n : ℕ) → digits m m [] ≡ digits n n [] → m ≡ n
unfolding text_number
digits-injective m n h =
    sym (text_number-digits m m [] (omega arith))
    ∙ ap (text_number 0) h
    ∙ text_number-digits n n [] (omega arith)

-- A text of digits holds no character that is not one.
digits-none_of :
    (stops : ℕ → Bool)
    → ((d : ℕ) → d < 10 → stops (b'0' + d) ≡ false)
    → (f n : ℕ) (out : Text) → none_of stops out ≡ true
    → none_of stops (digits f n out) ≡ true
unfolding none_of
digits-none_of stops clear zero n out h = unfold digits in rw (clear (n % 10) (omega arith)) h
digits-none_of stops clear (suc f) n out h = elim (Bool-cases (ltb n 10)) [
  | inl e ↦ rw (digits_small f n out e, clear (n % 10) (omega arith)) h
  | inr e ↦ rw (digits_large f n out e) (
      digits-none_of stops clear f (n / 10) ((b'0' + n % 10) ∷ out)
        (rw (clear (n % 10) (omega arith)) h))
]

pub format_int-none_of :
    (stops : ℕ → Bool)
    → ((d : ℕ) → d < 10 → stops (b'0' + d) ≡ false)
    → stops b'-' ≡ false
    → (n : ℤ) → none_of stops (format_int n) ≡ true
unfolding format_int none_of
format_int-none_of stops clear dash (pos n) = digits-none_of stops clear n n [] refl
format_int-none_of stops clear dash (negsuc n) =
    rw dash (digits-none_of stops clear (suc n) (suc n) [] refl)

abbrev is_dash : ℕ → Bool
is_dash c = c == b'-'

no_dash : (n : ℕ) (s : Text) → digits n n [] ≡ b'-' ∷ s → false ≡ true
unfolding none_of
no_dash n s h =
    ap (none_of is_dash) (sym h) ∙ digits-none_of is_dash (λ d l. ground arith) n n [] refl

pub format_int-injective : (m n : ℤ) → format_int m ≡ format_int n → m ≡ n
unfolding format_int
format_int-injective (pos m) (pos n) h = ap pos (digits-injective m n h)
format_int-injective (pos m) (negsuc n) h = let clash : false ≡ true = no_dash m _ h in cc
format_int-injective (negsuc m) (pos n) h = let clash : false ≡ true = no_dash n _ (sym h) in cc
format_int-injective (negsuc m) (negsuc n) h =
    let same : suc m ≡ suc n = digits-injective (suc m) (suc n) (cc) in
    ap negsuc (omega (arith, same))

like-like : (k : ℤ) (m q : ℕ) → 0 < m → like (like k m) q ≡ like k q
like-like (pos n) m q h = refl
like-like (negsuc n) zero q h = absurd (omega arith)
like-like (negsuc n) (suc m) q h = refl

positive-scaled : (n : ℕ) → 0 < suc n * unit
positive-scaled n = omega (arith, unit-positive, add-mul 1 n unit)

pub whole-scaled : (n : ℤ) → whole (scaled n) ≡ n
unfolding whole scaled
whole-scaled (pos n) = ap pos (mul-div_cancel n unit-positive)
whole-scaled (negsuc n) =
    let m = suc n * unit in
    rw (magnitude-like (negsuc n) m, mul-div_cancel (suc n) unit-positive)
      (like-like (negsuc n) m (suc n) (positive-scaled n))

like_undo : (k : ℤ) (q : ℕ) → q * unit ≡ magnitude k → like (like k q) (magnitude k) ≡ k
like_undo (pos n) q h = refl
like_undo (negsuc n) zero h = absurd (omega (arith, h))
like_undo (negsuc n) (suc q) h = refl

pub scaled-whole : (k : ℤ) → is_integral (finite k) ≡ true → scaled (whole k) ≡ k
unfolding is_integral scaled whole
scaled-whole k h =
    let q = magnitude k / unit in
    let exact : q * unit ≡ magnitude k =
      div-mul_cancel unit (dvd_of_mod-eq-zero unit ((nat_beq_iff (magnitude k % unit) 0).0 h)) in
    rw (magnitude-like k q, exact) (like_undo k q exact)

pub is_whole-scaled : (n : ℤ) → is_whole (scaled n) ≡ in_exact_range n
unfolding is_whole in_exact_range float_ltb
is_whole-scaled n =
    rw
      (
        is_integral-scaled n,
        to_float-scaled (pos (2 ^ 53)) refl,
        to_float-scaled (negsuc (2 ^ 53 - 1)) refl,
      )
      (rw (int_ltb-scaled (pos (2 ^ 53)) n, int_ltb-scaled n (negsuc (2 ^ 53 - 1))) (ground arith))
