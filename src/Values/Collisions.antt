-- ===== src/Values/Collisions.antt =====
-- Maps and large integers in `CanonicalKey` and `Equal` (rules/value.go).
use gess.Prelude.{false, [], ◌∷◌, ◌++◌, ◌≡◌, refl, ◌∙◌, ap, append_assoc, Text, codes, nat_eq}
use gess.Values.{Float64, Value, map_value, no_fields, field}
use gess.Values.Numbers.{compare_texts, below}
use gess.Values.Equality.{equals, fields_equal}
use gess.Values.Key.{
  canonical_key, duplicate_key, insert_field, sort_fields, write_entries, write_fields,
}

sorted_two :
    (a b x y : Text)
    → compare_texts a b ≡ below
    → sort_fields ((a, x) ∷ (b, y) ∷ []) ≡ (a, x) ∷ (b, y) ∷ []
unfolding sort_fields insert_field
sorted_two a b x y h = rw (insert_field, h) refl

module _ (quote : Text → Text) (format_float : Float64 → Text) where
  -- What stands before the value of b where the entries a and b are written.
  unfoldable pub merged : Text → Text → Value → Text → Text
  merged separator a v b = a ++ (b'=' ∷ (canonical_key quote format_float v ++ (separator ++ b)))

  -- A map with the entries a and b, a before b, and the map whose one name is what stands before the
  -- value of b in the key of the first, are not equal and have one canonical key.
  pub canonical_key-collides :
      (a b : Text) (v w : Value)
      → compare_texts a b ≡ below
      → (canonical_key quote format_float (map_value (field a v (field b w no_fields)))
          ≡ canonical_key quote format_float
              (map_value (field (merged (codes ",") a v b) w no_fields)))
        × (equals
              (map_value (field a v (field b w no_fields)))
              (map_value (field (merged (codes ",") a v b) w no_fields))
            ≡ false)
  unfolding canonical_key sort_fields insert_field write_entries equals merged
  canonical_key-collides a b v w h =
      let x = canonical_key quote format_float v in
      let y = canonical_key quote format_float w in
      (
        ap (λ es. codes "map{" ++ (write_entries es ++ codes "}")) (sorted_two a b x y h)
            ∙ ap (λ t. codes "map{" ++ (t ++ codes "}")) (simp append_assoc),
        refl,
      )

  -- Likewise two sets of fields have one duplicate key.
  pub duplicate_key-collides :
      (a b : Text) (v w : Value)
      → compare_texts a b ≡ below
      → (duplicate_key quote format_float (field a v (field b w no_fields))
          ≡ duplicate_key quote format_float (field (merged (codes ";") a v b) w no_fields))
        × (fields_equal
              (field a v (field b w no_fields))
              (field (merged (codes ";") a v b) w no_fields)
            ≡ false)
  unfolding duplicate_key sort_fields insert_field write_fields fields_equal merged canonical_key
  duplicate_key-collides a b v w h =
      let x = canonical_key quote format_float v in
      let y = canonical_key quote format_float w in
      (ap write_fields (sorted_two a b x y h) ∙ simp append_assoc, refl)
