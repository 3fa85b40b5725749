-- ===== src/Values/KeyLaws.antt =====
-- What the canonical keys of values without maps tell of the values (rules/value.go).
use gess.Prelude.{
  Bool, true, false, ◌&&◌, Option, some, [], ◌++◌, ℕ, nat_eq, list_eq, ==_refl, ◌≡◌, refl, sym, ◌∙◌,
  ap, arith, Text, codes, append_assoc, append-nil,
}
use gess.Prelude.Int.{ℤ}
use gess.Values.{
  Float64, finite, infinite, nan, Value, Values, null_value, bool_value, int_value, float_value,
  string_value, list_value, map_value, no_values, value,
}
use gess.Values.Numbers.{scaled, float_beq, numeric_values_equal}
use gess.Values.Exact.{number_of, numeric_values_equal_lem, int_beq_iff}
use gess.Values.Equality.{equals, equals_items}
use gess.Values.Key.{float_key, canonical_key, item_keys}
use gess.Values.Decimal.{format_int-injective}
use gess.Values.KeyTexts.{is_key_end, Formats, ends_key, clean_split, quote_split}
use gess.Sexp.Layout.{none_of}
use gess.Sexp.Layout.Words.{Quotes}
use gess.Values.KeyShapes.{kinds, more, item_text, items_more, first, sixth}
use gess.Values.KeyNumbers.{format_int-clean, float_text-clean, int_float_text, float_texts}

unfoldable mutual
  -- A value that holds no map and no float that is not finite.
  pub is_plain : Value → Bool
  is_plain (float_value (finite k)) = true
  is_plain (float_value (infinite n)) = false
  is_plain (float_value nan) = false
  is_plain (list_value vs) = all_plain vs
  is_plain (map_value entries) = false
  is_plain _ = true

  pub all_plain : Values → Bool
  all_plain no_values = true
  all_plain (value v vs) = is_plain v && all_plain vs

pub each_of : (a b : Bool) → (a && b) ≡ true → (a ≡ true) × (b ≡ true)
each_of a b h = (ground arith, ground arith)

module _ {quote : Text → Text} {unquote_char : Text → Option (ℕ × Text)}
    {format_float : Float64 → Text} (quotes : Quotes quote unquote_char)
    (formats : Formats format_float) where
  abbrev key_text : Value → Text
  key_text = canonical_key quote format_float

  abbrev Splits : Value → Value → Type 0
  Splits v w =
      (r q : Text)
      → ends_key r ≡ true
      → ends_key q ≡ true
      → key_text v ++ r ≡ key_text w ++ q
      → (equals v w ≡ true) × (r ≡ q)

  bool_Splits : (b c : Bool) → Splits (bool_value b) (bool_value c)
  unfolding canonical_key equals
  bool_Splits true true r q e d h = (refl, cc)
  bool_Splits false false r q e d h = (refl, cc)
  bool_Splits true false r q e d h = absurd (omega (arith, ap sixth h))
  bool_Splits false true r q e d h = absurd (omega (arith, ap sixth h))

  same_finite :
      (v w : Value) (k : ℤ)
      → number_of v ≡ some (finite k)
      → number_of w ≡ some (finite k)
      → numeric_values_equal v w ≡ true
  unfolding float_beq
  same_finite v w k e d = rw (numeric_values_equal_lem v w, e, d) ((int_beq_iff k k).1 refl)

  -- The texts of two numbers, and what follows.
  number_split :
      (v w : Value) (j k : ℤ) (s t r q : Text)
      → number_of v ≡ some (finite j)
      → number_of w ≡ some (finite k)
      → (s ≡ t → j ≡ k)
      → none_of is_key_end s ≡ true
      → none_of is_key_end t ≡ true
      → ends_key r ≡ true
      → ends_key q ≡ true
      → codes "number:" ++ s ++ r ≡ codes "number:" ++ t ++ q
      → (numeric_values_equal v w ≡ true) × (r ≡ q)
  number_split v w j k s t r q e d same a b ends ends' h =
      let (texts, rest) = clean_split s t r q a b ends ends' (cc) in
      (same_finite v w j e (d ∙ ap (λ i. some (finite i)) (sym (same texts))), rest)

  ends_more : (vs : Values) (r : Text) → ends_key (more quote format_float vs r) ≡ true
  unfolding ends_key
  ends_more no_values r = refl
  ends_more (value v vs) r = refl

  mutual
    unfolding canonical_key float_key equals is_plain ends_key number_of

    key_split : (v w : Value) → is_plain v ≡ true → is_plain w ≡ true → Splits v w
    key_split null_value null_value p o r q c d h = (refl, cc)
    key_split (bool_value b) (bool_value e) p o r q c d h = bool_Splits b e r q c d h
    key_split (int_value m) (int_value n) p o r q c d h =
        number_split (int_value m) (int_value n) (scaled m) (scaled n) _ _ r q refl refl
          (λ e. ap scaled (format_int-injective m n e)) (format_int-clean formats m)
          (format_int-clean formats n) c d h
    key_split (int_value m) (float_value (finite k)) p o r q c d h =
        number_split (int_value m) (float_value (finite k)) (scaled m) k _ _ r q refl refl
          (int_float_text formats m k) (format_int-clean formats m) (float_text-clean formats k) c d
          h
    key_split (float_value (finite k)) (int_value m) p o r q c d h =
        number_split (float_value (finite k)) (int_value m) k (scaled m) _ _ r q refl refl
          (λ e. sym (int_float_text formats m k (sym e))) (float_text-clean formats k)
          (format_int-clean formats m) c d h
    key_split (float_value (finite j)) (float_value (finite k)) p o r q c d h =
        number_split (float_value (finite j)) (float_value (finite k)) j k _ _ r q refl refl
          (float_texts formats j k) (float_text-clean formats j) (float_text-clean formats k) c d h
    key_split (string_value s) (string_value t) p o r q c d h =
        let (e, rest) = quote_split quotes s t r q (cc) in (rw e (==_refl t), rest)
    key_split (list_value vs) (list_value ws) p o r q c d h = rest_split vs ws p o r q (
        items_more quote format_float vs ws r q (
          sym (append_assoc (item_keys quote format_float vs) (codes "]") r)
          ∙ (cc)
          ∙ append_assoc (item_keys quote format_float ws) (codes "]") q))
    key_split (map_value _) w p o r q c d h = let clash : false ≡ true = p in (cc, cc)
    key_split (float_value (infinite b)) w p o r q c d h = let clash : false ≡ true = p in (cc, cc)
    key_split (float_value nan) w p o r q c d h = let clash : false ≡ true = p in (cc, cc)
    key_split v (float_value (infinite b)) p o r q c d h = let clash : false ≡ true = o in (cc, cc)
    key_split v (float_value nan) p o r q c d h = let clash : false ≡ true = o in (cc, cc)
    key_split v w p o r q c d h = absurd (omega (arith, kinds quote format_float v w r q h))

    rest_split :
        (vs ws : Values)
        → all_plain vs ≡ true
        → all_plain ws ≡ true
        → (r q : Text) → more quote format_float vs r ≡ more quote format_float ws q
        → (equals_items vs ws ≡ true) × (r ≡ q)
    rest_split no_values no_values p o r q h = (refl, cc)
    rest_split no_values (value w ws) p o r q h = absurd (omega (arith, ap first h))
    rest_split (value v vs) no_values p o r q h = absurd (omega (arith, ap first h))
    rest_split (value v vs) (value w ws) p o r q h =
        let (pv, pvs) = each_of (is_plain v) (all_plain vs) p in
        let (pw, pws) = each_of (is_plain w) (all_plain ws) o in
        let (e, rest) =
          key_split v w pv pw (more quote format_float vs r) (more quote format_float ws q)
            (ends_more vs r) (ends_more ws q)
            (sym (item_text quote format_float v vs r)
              ∙ (cc)
              ∙ item_text quote format_float w ws q) in
        let (f, last) = rest_split vs ws pvs pws r q rest in (rw (e, f) refl, last)

  -- Of values without maps and with finite floats only, equal canonical keys mean equal values.
  pub canonical_key-equals :
      (v w : Value)
      → is_plain v ≡ true
      → is_plain w ≡ true
      → canonical_key quote format_float v ≡ canonical_key quote format_float w
      → equals v w ≡ true
  unfolding ends_key
  canonical_key-equals v w p o h =
      (key_split v w p o [] [] refl refl (append-nil _ ∙ h ∙ sym (append-nil _))).0
