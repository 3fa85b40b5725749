-- ===== src/Values/EqualKeys.antt =====
-- The canonical keys of equal values (rules/value.go).
use gess.Prelude.{
  if◌then◌else◌, Bool, true, false, ◌&&◌, ◌++◌, nat_eq, list_eq, list_beq_iff, ◌≡◌, ◌≢◌, refl, sym,
  ◌∙◌, ap, Text, codes, drop,
}
use gess.Prelude.Int.{ℤ}
use gess.Values.{
  Float64, finite, Value, Values, null_value, bool_value, int_value, float_value, string_value,
  list_value, map_value, no_values, value,
}
use gess.Values.Numbers.{scaled, in_exact_range, float_beq, numeric_values_equal}
use gess.Values.Exact.{number_of, numeric_values_equal_lem, int_beq_iff, float_beq_sound}
use gess.Values.Equality.{equals, equals_items}
use gess.Values.Key.{format_int, whole, is_whole, float_key, canonical_key, item_keys}
use gess.Values.Decimal.{whole-scaled, is_whole-scaled}
use gess.Values.KeyTexts.{is_float_mark, Formats}
use gess.Values.KeyLaws.{each_of}
use gess.Values.KeyNumbers.{format_int-unmarked}
use gess.Sexp.Layout.{none_of}

unfoldable mutual
  -- A value whose integers lie within ±2 ^ 53.
  pub is_exact : Value → Bool
  is_exact (int_value n) = in_exact_range n
  is_exact (list_value vs) = all_exact vs
  is_exact _ = true

  pub all_exact : Values → Bool
  all_exact no_values = true
  all_exact (value v vs) = is_exact v && all_exact vs

unfoldable mutual
  -- A value that holds no map.
  pub has_no_map : Value → Bool
  has_no_map (list_value vs) = all_have_no_map vs
  has_no_map (map_value entries) = false
  has_no_map _ = true

  pub all_have_no_map : Values → Bool
  all_have_no_map no_values = true
  all_have_no_map (value v vs) = has_no_map v && all_have_no_map vs

module _ (quote : Text → Text) (format_float : Float64 → Text) where
  int_key-scaled :
      (n : ℤ)
      → in_exact_range n ≡ true
      → codes "number:" ++ format_int n ≡ float_key quote format_float (finite (scaled n))
  unfolding float_key
  int_key-scaled n h = rw (is_whole-scaled n, h, whole-scaled n) refl

  int_key-float :
      (n : ℤ) (y : Float64)
      → in_exact_range n ≡ true
      → numeric_values_equal (int_value n) (float_value y) ≡ true
      → codes "number:" ++ format_int n ≡ float_key quote format_float y
  unfolding number_of
  int_key-float n y r h =
      int_key-scaled n r
      ∙ ap (λ x. float_key quote format_float x)
          (float_beq_sound (finite (scaled n)) y
            (sym (numeric_values_equal_lem (int_value n) (float_value y)) ∙ h))

  float_key-int :
      (x : Float64) (n : ℤ)
      → in_exact_range n ≡ true
      → numeric_values_equal (float_value x) (int_value n) ≡ true
      → float_key quote format_float x ≡ codes "number:" ++ format_int n
  unfolding number_of
  float_key-int x n r h =
      ap (λ y. float_key quote format_float y)
        (float_beq_sound x (finite (scaled n))
          (sym (numeric_values_equal_lem (float_value x) (int_value n)) ∙ h))
      ∙ sym (int_key-scaled n r)

  mutual
    unfolding canonical_key equals has_no_map is_exact numeric_values_equal

    same_keys :
        (v w : Value)
        → has_no_map v ≡ true
        → is_exact v ≡ true
        → is_exact w ≡ true
        → equals v w ≡ true
        → canonical_key quote format_float v ≡ canonical_key quote format_float w
    same_keys null_value null_value p a b h = refl
    same_keys (bool_value true) (bool_value true) p a b h = refl
    same_keys (bool_value false) (bool_value false) p a b h = refl
    same_keys (bool_value true) (bool_value false) p a b h = cc
    same_keys (bool_value false) (bool_value true) p a b h = cc
    same_keys (int_value m) (int_value n) p a b h =
        ap (λ i. codes "number:" ++ format_int i) ((int_beq_iff m n).0 h)
    same_keys (int_value m) (float_value y) p a b h = int_key-float m y a h
    same_keys (float_value x) (int_value n) p a b h = float_key-int x n b h
    same_keys (float_value x) (float_value y) p a b h =
        ap (λ z. float_key quote format_float z) (float_beq_sound x y h)
    same_keys (string_value s) (string_value t) p a b h =
        ap (λ u. codes "string:" ++ quote u) ((list_beq_iff s t).0 h)
    same_keys (list_value vs) (list_value ws) p a b h =
        ap (λ u. codes "list[" ++ (u ++ codes "]")) (same_item_keys vs ws p a b h)
    same_keys (map_value _) w p a b h = cc
    same_keys v w p a b h = cc

    same_item_keys :
        (vs ws : Values)
        → all_have_no_map vs ≡ true
        → all_exact vs ≡ true
        → all_exact ws ≡ true
        → equals_items vs ws ≡ true
        → item_keys quote format_float vs ≡ item_keys quote format_float ws
    same_item_keys no_values no_values p a b h = refl
    same_item_keys no_values (value w ws) p a b h = cc
    same_item_keys (value v vs) no_values p a b h = cc
    same_item_keys (value v no_values) (value w no_values) p a b h =
        same_keys v w (each_of (has_no_map v) true p).0 (each_of (is_exact v) true a).0
          (each_of (is_exact w) true b).0 (each_of (equals v w) true h).0
    same_item_keys (value v no_values) (value w (value x xs)) p a b h =
        let (e, f) = each_of (equals v w) false h in cc
    same_item_keys (value v (value x xs)) (value w no_values) p a b h =
        let (e, f) = each_of (equals v w) false h in cc
    same_item_keys (value v (value x xs)) (value w (value y ys)) p a b h =
        let (pv, pvs) = each_of (has_no_map v) (all_have_no_map (value x xs)) p in
        let (av, avs) = each_of (is_exact v) (all_exact (value x xs)) a in
        let (aw, aws) = each_of (is_exact w) (all_exact (value y ys)) b in
        let (e, es) = each_of (equals v w) (equals_items (value x xs) (value y ys)) h in
        rw (same_keys v w pv av aw e, same_item_keys (value x xs) (value y ys) pvs avs aws es) refl

  -- Equal values, of which the first holds no map and both have integers within ±2 ^ 53 only,
  -- have equal canonical keys.
  pub equals-canonical_key :
      (v w : Value)
      → has_no_map v ≡ true
      → is_exact v ≡ true
      → is_exact w ≡ true
      → equals v w ≡ true
      → canonical_key quote format_float v ≡ canonical_key quote format_float w
  equals-canonical_key = same_keys

not_whole :
    (format_float : Float64 → Text) (n : ℤ)
    → in_exact_range n ≡ false
    → (if is_whole (scaled n)
        then format_int (whole (scaled n))
        else format_float (finite (scaled n)))
      ≡ format_float (finite (scaled n))
not_whole format_float n h = rw (is_whole-scaled n, h) refl

-- An integer past ±2 ^ 53 is equal to the float of the same number, where there is one, and has another
-- canonical key.
pub equals-other_key :
    {format_float : Float64 → Text} (formats : Formats format_float) (quote : Text → Text) (n : ℤ)
    → in_exact_range n ≡ false
    → (equals (int_value n) (float_value (finite (scaled n))) ≡ true)
      × (canonical_key quote format_float (int_value n)
          ≢ canonical_key quote format_float (float_value (finite (scaled n))))
unfolding equals canonical_key float_key number_of float_beq
equals-other_key {format_float} formats quote n h = (
  numeric_values_equal_lem (int_value n) (float_value (finite (scaled n)))
      ∙ (int_beq_iff (scaled n) (scaled n)).1 refl,
  λ e.
      let texts : format_int n ≡ format_float (finite (scaled n)) =
        ap (drop 7) e ∙ not_whole format_float n h in
      let clash : true ≡ false =
        sym (format_int-unmarked formats n)
        ∙ ap (none_of is_float_mark) texts
        ∙ formats.marked (scaled n) (is_whole-scaled n ∙ h) in
      cc,
)
