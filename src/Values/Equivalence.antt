-- ===== src/Values/Equivalence.antt =====
-- `Value.Equal` (rules/value.go) between values, over their numbers and over maps in any order.
use gess.Prelude.{
  Bool, true, false, Bool-cases, ◌&&◌, Option, none, some, ◌==◌, nat_eq, list_eq, list_beq_iff, ◌≡◌,
  refl, sym, ◌∙◌, ap, subst, inl, inr, arith, Text,
}
use gess.Values.{
  Float64, Value, Values, Fields, null_value, bool_value, int_value, float_value, string_value,
  list_value, map_value, no_values, value, no_fields, field,
}
use gess.Values.Numbers.{numeric_values_equal}
use gess.Values.Exact.{
  number_of, same_number, numeric_values_equal_lem, float_beq_sym, float_beq_sound,
}
use gess.Values.Equality.{field_of, count_fields, bool_beq, equals, equals_items, equals_fields}
use gess.Values.KeyLaws.{each_of}

pub numeric_sym : (l r : Value) → numeric_values_equal l r ≡ numeric_values_equal r l
numeric_sym l r =
    numeric_values_equal_lem l r
    ∙ same_number_sym (number_of l) (number_of r)
    ∙ sym (numeric_values_equal_lem r l)
  where
    same_number_sym : (x y : Option Float64) → same_number x y ≡ same_number y x
    same_number_sym (some x) (some y) = float_beq_sym x y
    same_number_sym (some x) none = refl
    same_number_sym none (some y) = refl
    same_number_sym none none = refl

same_number_sound : (x y : Option Float64) → same_number x y ≡ true → x ≡ y
same_number_sound (some x) (some y) h = ap some (float_beq_sound x y h)
same_number_sound (some x) none h = cc
same_number_sound none y h = cc

numeric_sound : (l r : Value) → numeric_values_equal l r ≡ true → number_of l ≡ number_of r
numeric_sound l r h =
    same_number_sound (number_of l) (number_of r) (sym (numeric_values_equal_lem l r) ∙ h)

numeric_trans :
    (u v w : Value)
    → numeric_values_equal u v ≡ true
    → numeric_values_equal v w ≡ true
    → numeric_values_equal u w ≡ true
numeric_trans u v w h k =
    numeric_values_equal_lem u w
    ∙ ap (λ x. same_number x (number_of w)) (numeric_sound u v h)
    ∙ sym (numeric_values_equal_lem v w)
    ∙ k

number_with_none : (o : Option Float64) → same_number o none ≡ false
number_with_none none = refl
number_with_none (some x) = refl

pub no_number : (u v : Value) → number_of v ≡ none → numeric_values_equal u v ≡ true → false ≡ true
no_number u v e h =
    sym (number_with_none (number_of u))
    ∙ ap (λ o. same_number (number_of u) o) (sym e)
    ∙ sym (numeric_values_equal_lem u v)
    ∙ h

-- What is equal to a number is a number.
numeric_next :
    (u v w : Value)
    → numeric_values_equal u v ≡ true
    → equals v w ≡ true
    → numeric_values_equal u w ≡ true
unfolding equals number_of
numeric_next u (int_value n) w h k = numeric_trans u (int_value n) w h k
numeric_next u (float_value x) w h k = numeric_trans u (float_value x) w h k
numeric_next u v w h k = let clash : false ≡ true = no_number u v refl h in cc

bool_beq_sound : (b c : Bool) → bool_beq b c ≡ true → b ≡ c
bool_beq_sound true true h = refl
bool_beq_sound false false h = refl
bool_beq_sound true false h = cc
bool_beq_sound false true h = cc

-- What the loop over a map says of its first entry.
abbrev pub Meets : Value → Fields → Fields → Option Value → Type 0
Meets v l r o = (x : Value) × (o ≡ some x) × (equals v x ≡ true) × (equals_fields l r ≡ true)

meets :
    (v : Value) (l r : Fields) (o : Option Value)
    → elim o [ none ↦ false | some w ↦ equals v w && equals_fields l r ] ≡ true
    → Meets v l r o
meets v l r none h = cc
meets v l r (some x) h =
    let (e, rest) = each_of (equals v x) (equals_fields l r) h in (x, refl, e, rest)

pub fields_first :
    (k : Text) (v : Value) (l r : Fields)
    → equals_fields (field k v l) r ≡ true
    → Meets v l r (field_of k r)
unfolding equals
fields_first k v l r h = meets v l r (field_of k r) h

-- The first entry that meets an equal one joins the others.
pub fields_join :
    (k : Text) (v x : Value) (l r : Fields)
    → field_of k r ≡ some x
    → equals v x ≡ true
    → equals_fields l r ≡ true
    → equals_fields (field k v l) r ≡ true
unfolding equals
fields_join k v x l r e h g =
    subst (λ o. elim o [ none ↦ false | some w ↦ equals v w && equals_fields l r ] ≡ true) (sym e)
      (rw (h, g) refl)

pub field_of_first :
    (k n : Text) (v : Value) (l : Fields) → (n == k) ≡ true → field_of k (field n v l) ≡ some v
unfolding field_of
field_of_first k n v l h = rw h refl

pub field_of_other :
    (k n : Text) (v : Value) (l : Fields)
    → (n == k) ≡ false
    → field_of k (field n v l) ≡ field_of k l
unfolding field_of
field_of_other k n v l h = rw h refl

pub same_value : (v w : Value) → some v ≡ some w → v ≡ w
same_value v w h = cc

-- What an entry of a map meets in a map that its map is equal to.
pub fields_at :
    (l r : Fields) (k : Text) (v : Value)
    → equals_fields l r ≡ true
    → field_of k l ≡ some v
    → (x : Value) × (field_of k r ≡ some x) × (equals v x ≡ true)
unfolding field_of
fields_at no_fields r k v h e = cc
fields_at (field n u l) r k v h e =
    let (x, found, same, rest) = fields_first n u l r h in
    elim (Bool-cases (n == k)) [
      | inl d ↦
          let value_same : u ≡ v = same_value u v (sym (field_of_first k n u l d) ∙ e) in
          (
            x,
            subst (λ j. field_of j r ≡ some x) ((list_beq_iff n k).0 d) found,
            subst (λ y. equals y x ≡ true) value_same same,
          )
      | inr d ↦ fields_at l r k v rest (sym (field_of_other k n u l d) ∙ e)
    ]

mutual
  unfolding equals

  trans : (u v w : Value) → equals u v ≡ true → equals v w ≡ true → equals u w ≡ true
  trans null_value null_value w h k = k
  trans (bool_value a) (bool_value b) (bool_value c) h k =
      subst (λ d. bool_beq d c ≡ true) (sym (bool_beq_sound a b h)) k
  trans (int_value m) v w h k = numeric_next (int_value m) v w h k
  trans (float_value x) v w h k = numeric_next (float_value x) v w h k
  trans (string_value a) (string_value b) (string_value c) h k =
      subst (λ d. (d == c) ≡ true) (sym ((list_beq_iff a b).0 h)) k
  trans (list_value xs) (list_value ys) (list_value zs) h k = trans_items xs ys zs h k
  trans (map_value l) (map_value m) (map_value r) h k =
      let (c, es) = each_of (count_fields l == count_fields m) (equals_fields l m) h in
      let (d, gs) = each_of (count_fields m == count_fields r) (equals_fields m r) k in
      let same : (count_fields l == count_fields r) ≡ true = ground arith in
      rw (same, trans_fields l m r es gs) refl
  trans u v w h k = cc

  trans_items :
      (xs ys zs : Values)
      → equals_items xs ys ≡ true
      → equals_items ys zs ≡ true
      → equals_items xs zs ≡ true
  trans_items no_values no_values no_values h k = refl
  trans_items (value x xs) (value y ys) (value z zs) h k =
      let (a, more) = each_of (equals x y) (equals_items xs ys) h in
      let (b, rest) = each_of (equals y z) (equals_items ys zs) k in
      rw (trans x y z a b, trans_items xs ys zs more rest) refl
  trans_items xs ys zs h k = cc

  trans_fields :
      (l m r : Fields)
      → equals_fields l m ≡ true
      → equals_fields m r ≡ true
      → equals_fields l r ≡ true
  trans_fields no_fields m r h k = refl
  trans_fields (field n u l) m r h k =
      let (v, found, same, rest) = fields_first n u l m h in
      let (w, found', same') = fields_at m r n v k found in
      fields_join n u w l r found' (trans u v w same same') (trans_fields l m r rest k)

-- `Equal` is transitive, over integers and floats and over maps in any order of their entries.
pub equals_trans : (u v w : Value) → equals u v ≡ true → equals v w ≡ true → equals u w ≡ true
equals_trans = trans
