-- ===== src/Values/Symmetry.antt =====
-- `Value.Equal` (rules/value.go) from both sides.
use gess.Prelude.{
  Bool, true, false, Bool-cases, not, ◌&&◌, some, ℕ, ◌==◌, nat_eq, list_eq, list_beq_iff, ◌≡◌, refl,
  sym, ◌∙◌, subst, inl, inr, arith, Text,
}
use gess.Values.{
  Value, Values, Fields, null_value, bool_value, int_value, float_value, string_value, list_value,
  map_value, no_values, value, no_fields, field,
}
use gess.Values.Numbers.{numeric_values_equal}
use gess.Values.Exact.{number_of}
use gess.Values.Equality.{field_of, count_fields, equals, equals_items, equals_fields}
use gess.Values.KeyLaws.{each_of}
use gess.Values.Equivalence.{
  numeric_sym, no_number, fields_first, field_of_first, field_of_other, same_value, equals_trans,
}
use gess.Values.Names.{has, is_map, all_maps, names_differ, field_of-is_map, fields_sym}

no_entry : (k : Text) (v : Value) → field_of k no_fields ≡ some v → false ≡ true
unfolding field_of
no_entry k v e = cc

flipped_size : (a b : ℕ) → (a == b) ≡ true → (b == a) ≡ true
flipped_size a b h = ground arith

number_flipped : (v w : Value) → numeric_values_equal v w ≡ true → equals w v ≡ true
unfolding equals number_of
number_flipped v (int_value n) h = sym (numeric_sym v (int_value n)) ∙ h
number_flipped v (float_value x) h = sym (numeric_sym v (float_value x)) ∙ h
number_flipped v w h = let clash : false ≡ true = no_number v w refl h in cc

mutual
  unfolding equals is_map number_of

  flipped :
      (v w : Value) → is_map v ≡ true → is_map w ≡ true → equals v w ≡ true → equals w v ≡ true
  flipped null_value null_value p q h = refl
  flipped (bool_value true) (bool_value true) p q h = refl
  flipped (bool_value false) (bool_value false) p q h = refl
  flipped (bool_value true) (bool_value false) p q h = cc
  flipped (bool_value false) (bool_value true) p q h = cc
  flipped (int_value m) w p q h = number_flipped (int_value m) w h
  flipped (float_value x) w p q h = number_flipped (float_value x) w h
  flipped (string_value s) (string_value t) p q h =
      (list_beq_iff t s).1 (sym ((list_beq_iff s t).0 h))
  flipped (list_value vs) (list_value ws) p q h = items_flipped vs ws p q h
  flipped (map_value l) (map_value r) p q h =
      let (same, es) = each_of (count_fields l == count_fields r) (equals_fields l r) h in
      let size : (count_fields r == count_fields l) ≡ true =
        flipped_size (count_fields l) (count_fields r) same in
      rw (size, fields_sym l r p q same es (λ k v e. entry_flipped l r p q es k v e)) refl
  flipped v w p q h = cc

  items_flipped :
      (vs ws : Values)
      → all_maps vs ≡ true
      → all_maps ws ≡ true
      → equals_items vs ws ≡ true
      → equals_items ws vs ≡ true
  items_flipped no_values no_values p q h = refl
  items_flipped (value v vs) (value w ws) p q h =
      let (a, more) = each_of (is_map v) (all_maps vs) p in
      let (b, rest) = each_of (is_map w) (all_maps ws) q in
      let (e, es) = each_of (equals v w) (equals_items vs ws) h in
      rw (flipped v w a b e, items_flipped vs ws more rest es) refl
  items_flipped vs ws p q h = cc

  entry_flipped :
      (l r : Fields)
      → names_differ l ≡ true
      → names_differ r ≡ true
      → equals_fields l r ≡ true
      → (k : Text) (v : Value) → field_of k l ≡ some v
      → (x : Value) × (field_of k r ≡ some x) × (equals x v ≡ true)
  entry_flipped no_fields r p q h k v e = let clash : false ≡ true = no_entry k v e in cc
  entry_flipped (field n u l) r p q h k v e =
      let (absent, kept) = each_of (not (has n l)) (is_map u && names_differ l) p in
      let (here, rest) = each_of (is_map u) (names_differ l) kept in
      let (x, found, same, others) = fields_first n u l r h in
      elim (Bool-cases (n == k)) [
        | inl c ↦ (
          x,
          subst (λ j. field_of j r ≡ some x) ((list_beq_iff n k).0 c) found,
          subst (λ y. equals x y ≡ true) (same_value u v (sym (field_of_first k n u l c) ∙ e))
              (flipped u x here (field_of-is_map n x r q found) same),
        )
        | inr c ↦ entry_flipped l r rest q others k v (sym (field_of_other k n u l c) ∙ e)
      ]

same_answer : (a b : Bool) → (a ≡ true → b ≡ true) → (b ≡ true → a ≡ true) → a ≡ b
same_answer true b f g = sym (f refl)
same_answer false true f g = g refl
same_answer false false f g = refl

-- Where each name stands once in a map, `Equal` is symmetric, and equal values are equal to the same
-- values: over integers and floats of any size, and over maps in any order of their entries.
pub equals-equivalence :
    (u v w : Value)
    → is_map u ≡ true
    → is_map v ≡ true
    → equals u v ≡ true
    → (equals v u ≡ true) × (equals u w ≡ equals v w)
equals-equivalence u v w p q h =
    let back = flipped u v p q h in
    (back, same_answer (equals u w) (equals v w) (equals_trans v u w back) (equals_trans u v w h))
