-- ===== src/Values/KeyNumbers.antt =====
-- What `numericDuplicateKey` (rules/value.go) writes behind "number:".
use gess.Prelude.{
  true, false, Bool-cases, nat_eq, list_eq, ◌≡◌, refl, sym, ◌∙◌, ap, inl, inr, arith, Text,
  if◌then◌else◌,
}
use gess.Prelude.Int.{ℤ}
use gess.Values.{Float64, finite}
use gess.Values.Numbers.{scaled}
use gess.Values.Key.{format_int, whole, is_whole}
use gess.Values.Decimal.{format_int-none_of, format_int-injective, scaled-whole}
use gess.Values.KeyTexts.{is_key_end, is_float_mark, Formats}
use gess.Sexp.Layout.{none_of}

module _ {format_float : Float64 → Text} (formats : Formats format_float) where
  -- What is written of a number behind "number:".
  abbrev pub float_text : ℤ → Text
  float_text k = if is_whole k then format_int (whole k) else format_float (finite k)

  pub format_int-clean : (n : ℤ) → none_of is_key_end (format_int n) ≡ true
  format_int-clean n = format_int-none_of is_key_end (λ d l. ground arith) refl n

  pub format_int-unmarked : (n : ℤ) → none_of is_float_mark (format_int n) ≡ true
  format_int-unmarked n = format_int-none_of is_float_mark (λ d l. ground arith) refl n

  pub float_text-clean : (k : ℤ) → none_of is_key_end (float_text k) ≡ true
  float_text-clean k = elim (Bool-cases (is_whole k)) [
    | inl e ↦ rw e (format_int-clean (whole k))
    | inr e ↦ rw e (formats.clean k)
  ]

  integral_of_whole : (k : ℤ) → is_whole k ≡ true → scaled (whole k) ≡ k
  unfolding is_whole
  integral_of_whole k h = scaled-whole k (ground arith)

  pub int_float_text : (n k : ℤ) → format_int n ≡ float_text k → scaled n ≡ k
  int_float_text n k h = elim (Bool-cases (is_whole k)) [
    | inl e ↦
        let same : format_int n ≡ format_int (whole k) = rw e at h in
        ap scaled (format_int-injective n (whole k) same) ∙ integral_of_whole k e
    | inr e ↦
        let same : format_int n ≡ format_float (finite k) = rw e at h in
        let clash : true ≡ false =
          sym (format_int-unmarked n) ∙ ap (none_of is_float_mark) same ∙ formats.marked k e in
        cc
  ]

  pub float_texts : (j k : ℤ) → float_text j ≡ float_text k → j ≡ k
  float_texts j k h = elim (Bool-cases (is_whole j)) [
    | inl e ↦
        let same : format_int (whole j) ≡ float_text k = rw e at h in
        sym (integral_of_whole j e) ∙ int_float_text (whole j) k same
    | inr e ↦ elim (Bool-cases (is_whole k)) [
      | inl d ↦
          let same : float_text j ≡ format_int (whole k) = rw d at h in
          sym (int_float_text (whole k) j (sym same)) ∙ integral_of_whole k d
      | inr d ↦
          let same : format_float (finite j) ≡ float_text k = rw e at h in
          let both : format_float (finite j) ≡ format_float (finite k) = rw d at same in
          formats.exact j k both
    ]
  ]
