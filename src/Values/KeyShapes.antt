-- ===== src/Values/KeyShapes.antt =====
-- How canonical keys begin, which differs from kind to kind, and the keys of a list (rules/value.go).
use gess.Prelude.{
  true, false, [], ◌∷◌, ◌++◌, ℕ, ◌==◌, nat_eq, list_eq, ◌≡◌, refl, sym, ◌∙◌, ap, Text, append_assoc,
}
use gess.Values.{
  Float64, finite, infinite, nan, Value, Values, null_value, bool_value, int_value, float_value,
  string_value, list_value, map_value, no_values, value,
}
use gess.Values.Key.{float_key, canonical_key, item_keys}

-- The third character of a key, which differs from kind to kind.
abbrev third : Text → ℕ
third (a ∷ (b ∷ (c ∷ s))) = c
third _ = 0

abbrev pub sixth : Text → ℕ
sixth (a ∷ (b ∷ (c ∷ (d ∷ (e ∷ (f ∷ s)))))) = f
sixth _ = 0

abbrev pub first : Text → ℕ
first [] = 0
first (c ∷ s) = c

abbrev kind_char : Value → ℕ
kind_char null_value = b'l'
kind_char (bool_value b) = b'o'
kind_char (int_value n) = b'm'
kind_char (float_value x) = b'm'
kind_char (string_value s) = b'r'
kind_char (list_value vs) = b's'
kind_char (map_value entries) = b'p'

module _ (quote : Text → Text) (format_float : Float64 → Text) where
  third-key : (v : Value) (r : Text) → third (canonical_key quote format_float v ++ r) ≡ kind_char v
  unfolding canonical_key float_key
  third-key null_value r = refl
  third-key (bool_value true) r = refl
  third-key (bool_value false) r = refl
  third-key (float_value (finite k)) r = refl
  third-key (float_value (infinite n)) r = refl
  third-key (float_value nan) r = refl
  third-key _ r = refl

  first-key :
      (v : Value) (r : Text) → (first (canonical_key quote format_float v ++ r) == b']') ≡ false
  unfolding canonical_key float_key
  first-key null_value r = refl
  first-key (bool_value true) r = refl
  first-key (bool_value false) r = refl
  first-key (float_value (finite k)) r = refl
  first-key (float_value (infinite n)) r = refl
  first-key (float_value nan) r = refl
  first-key _ r = refl

  -- What follows the key of an item, behind the list `r`.
  abbrev pub more : Values → Text → Text
  more no_values r = b']' ∷ r
  more (value w ws) r = b',' ∷ (item_keys quote format_float (value w ws) ++ b']' ∷ r)

  pub item_text :
      (v : Value) (vs : Values) (r : Text)
      → item_keys quote format_float (value v vs) ++ b']' ∷ r
        ≡ canonical_key quote format_float v ++ more vs r
  unfolding canonical_key
  item_text v no_values r = refl
  item_text v (value w ws) r = append_assoc (canonical_key quote format_float v) _ (b']' ∷ r)

  not_closed :
      (w : Value) (ws : Values) (r q : Text)
      → b']' ∷ r ≡ item_keys quote format_float (value w ws) ++ b']' ∷ q
      → false ≡ true
  not_closed w ws r q h =
      sym (first-key w (more ws q)) ∙ ap (λ t. first t == b']') (sym (h ∙ item_text w ws q))

  pub items_more :
      (vs ws : Values) (r q : Text)
      → item_keys quote format_float vs ++ b']' ∷ r ≡ item_keys quote format_float ws ++ b']' ∷ q
      → more vs r ≡ more ws q
  unfolding canonical_key
  items_more no_values no_values r q h = h
  items_more no_values (value w ws) r q h = let clash : false ≡ true = not_closed w ws r q h in cc
  items_more (value v vs) no_values r q h =
      let clash : false ≡ true = not_closed v vs q r (sym h) in cc
  items_more (value v vs) (value w ws) r q h = ap (◌∷◌ b',') h

  pub kinds :
      (v w : Value) (r q : Text)
      → canonical_key quote format_float v ++ r ≡ canonical_key quote format_float w ++ q
      → kind_char v ≡ kind_char w
  kinds v w r q h = sym (third-key v r) ∙ ap third h ∙ third-key w q
