-- ===== src/Values/Names.antt =====
-- The names of two maps of one size, and the entries that `Value.Equal` (rules/value.go) compares.
use gess.Prelude.{
  Bool, true, false, Bool-cases, not, ◌&&◌, some, is_some, Option-cases, suc, ◌≤◌, ◌==◌, nat_eq,
  list_eq, list_beq_iff, nat_beq_iff, ==_refl, ◌≡◌, refl, sym, ◌∙◌, ap, subst, inl, inr, arith,
  Text,
}
use gess.Values.{Value, Values, Fields, list_value, map_value, no_values, value, no_fields, field}
use gess.Values.Equality.{field_of, count_fields, equals, equals_fields}
use gess.Values.KeyLaws.{each_of}
use gess.Values.Equivalence.{fields_join, fields_at, field_of_first, field_of_other, same_value}

abbrev pub has : Text → Fields → Bool
has k l = is_some (field_of k l)

unfoldable mutual
  -- In every map each name stands once, as in a Go map.
  pub is_map : Value → Bool
  is_map (list_value vs) = all_maps vs
  is_map (map_value l) = names_differ l
  is_map _ = true

  pub all_maps : Values → Bool
  all_maps no_values = true
  all_maps (value v vs) = is_map v && all_maps vs

  pub names_differ : Fields → Bool
  names_differ no_fields = true
  names_differ (field k v l) = not (has k l) && (is_map v && names_differ l)

unfoldable without : Text → Fields → Fields
without k no_fields = no_fields
without k (field n v l) = elim (n == k) [ true ↦ l | false ↦ field n v (without k l) ]

has_first : (k n : Text) (v : Value) (l : Fields) → (n == k) ≡ true → has k (field n v l) ≡ true
has_first k n v l h = ap is_some (field_of_first k n v l h)

has_other : (k n : Text) (v : Value) (l : Fields) → (n == k) ≡ false → has k (field n v l) ≡ has k l
has_other k n v l h = ap is_some (field_of_other k n v l h)

without_here : (k n : Text) (v : Value) (l : Fields) → (n == k) ≡ true → without k (field n v l) ≡ l
unfolding without
without_here k n v l h = rw (without, h) refl

without_there :
    (k n : Text) (v : Value) (l : Fields)
    → (n == k) ≡ false
    → without k (field n v l) ≡ field n v (without k l)
unfolding without
without_there k n v l h = rw (without, h) refl

count-without :
    (k : Text) (l : Fields) → has k l ≡ true → count_fields l ≡ suc (count_fields (without k l))
count-without k no_fields h = unfold field_of in cc
count-without k (field n v l) h = elim (Bool-cases (n == k)) [
  | inl e ↦ rw (without_here k n v l e) refl
  | inr e ↦
      rw (without_there k n v l e) (ap suc (count-without k l (sym (has_other k n v l e) ∙ h)))
]

has-without :
    (k j : Text) (l : Fields) → (k == j) ≡ false → has j l ≡ true → has j (without k l) ≡ true
has-without k j no_fields d h = unfold without in h
has-without k j (field n v l) d h = elim (Bool-cases (n == k)) [
  | inl e ↦
      let other : (n == j) ≡ false =
        subst (λ m. (m == j) ≡ false) (sym ((list_beq_iff n k).0 e)) d in
      rw (without_here k n v l e) (sym (has_other j n v l other) ∙ h)
  | inr e ↦ rw (without_there k n v l e) (elim (Bool-cases (n == j)) [
    | inl c ↦ has_first j n v (without k l) c
    | inr c ↦ has_other j n v (without k l) c ∙ has-without k j l d (sym (has_other j n v l c) ∙ h)
  ])
]

-- A name that another map's entries do not have is none of theirs.
other_name : (k j : Text) (l : Fields) → not (has k l) ≡ true → has j l ≡ true → (k == j) ≡ false
other_name k j l absent h = elim (Bool-cases (k == j)) [
  | inl e ↦
      let present : has k l ≡ true = subst (λ i. has i l ≡ true) (sym ((list_beq_iff k j).0 e)) h in
      let clash : false ≡ true = sym (ap not present) ∙ absent in cc
  | inr e ↦ e
]

-- Of two maps, if the right one holds all names of the left and is no larger, the left one holds all
-- names of the right.
names_back :
    (l r : Fields)
    → names_differ l ≡ true
    → ((j : Text) → has j l ≡ true → has j r ≡ true)
    → count_fields r ≤ count_fields l
    → (j : Text) → has j r ≡ true
    → has j l ≡ true
names_back no_fields no_fields d sub c j h = h
names_back no_fields (field n v r) d sub c j h = absurd (omega (arith, c))
names_back (field k v l) r d sub c j h =
    let (absent, kept) =
      each_of (not (has k l)) (is_map v && names_differ l) (unfold is_map in d) in
    let differ = (each_of (is_map v) (names_differ l) kept).1 in
    let head : has k r ≡ true = sub k (has_first k k v l (==_refl k)) in
    elim (Bool-cases (k == j)) [
      | inl e ↦ has_first j k v l e
      | inr e ↦
          has_other j k v l e
          ∙ names_back l (without k r) differ
              (λ i m.
                let d' = other_name k i l absent m in
                has-without k i r d' (sub i (has_other i k v l d' ∙ m)))
              (omega (arith, c, count-without k r head)) j (has-without k j r e h)
    ]

has_some : (k : Text) (l : Fields) → has k l ≡ true → (v : Value) × (field_of k l ≡ some v)
has_some k l h = elim (Option-cases (field_of k l)) [
  | inl e ↦ let clash : false ≡ true = sym (ap is_some e) ∙ h in cc
  | inr found ↦ found
]

-- The values of a map are as its entries are.
pub field_of-is_map :
    (k : Text) (v : Value) (l : Fields)
    → names_differ l ≡ true
    → field_of k l ≡ some v
    → is_map v ≡ true
field_of-is_map k v no_fields d e = unfold field_of in cc
field_of-is_map k v (field n u l) d e =
    let (absent, kept) =
      each_of (not (has n l)) (is_map u && names_differ l) (unfold is_map in d) in
    let (here, rest) = each_of (is_map u) (names_differ l) kept in
    elim (Bool-cases (n == k)) [
      | inl c ↦
          subst (λ w. is_map w ≡ true) (same_value u v (sym (field_of_first k n u l c) ∙ e)) here
      | inr c ↦ field_of-is_map k v l rest (sym (field_of_other k n u l c) ∙ e)
    ]

-- A map all of whose entries meet equal ones in another passes the loop over it.
fields_all :
    (r l : Fields)
    → names_differ r ≡ true
    → ((k : Text) (x : Value)
        → field_of k r ≡ some x
        → (v : Value) × (field_of k l ≡ some v) × (equals x v ≡ true))
    → equals_fields r l ≡ true
fields_all no_fields l d meet = unfold equals in refl
fields_all (field k x r) l d meet =
    let (absent, kept) =
      each_of (not (has k r)) (is_map x && names_differ r) (unfold is_map in d) in
    let (v, found, same) = meet k x (field_of_first k k x r (==_refl k)) in
    fields_join k x v r l found same (
      fields_all r l (each_of (is_map x) (names_differ r) kept).1
        (λ j y e. meet j y (field_of_other j k x r (other_name k j r absent (ap is_some e)) ∙ e)))

-- Where each entry of the left map meets an entry that is equal to it, so does each of the right.
pub fields_sym :
    (l r : Fields)
    → names_differ l ≡ true
    → names_differ r ≡ true
    → (count_fields l == count_fields r) ≡ true
    → equals_fields l r ≡ true
    → ((k : Text) (v : Value)
        → field_of k l ≡ some v
        → (x : Value) × (field_of k r ≡ some x) × (equals x v ≡ true))
    → equals_fields r l ≡ true
fields_sym l r d e same h meet =
    let size : count_fields l ≡ count_fields r =
      (nat_beq_iff (count_fields l) (count_fields r)).0 same in
    fields_all r l e λ k x found.
      let sub = λ (j : Text) (m : has j l ≡ true).
        (let (v, at) = has_some j l m in
          let (y, there, eq) = fields_at l r j v h at in ap is_some there) in
      let (v, at) =
        has_some k l (names_back l r d sub (omega (arith, size)) k (ap is_some found)) in
      let (y, there, eq) = meet k v at in
      (v, at, subst (λ z. equals z v ≡ true) (same_value y x (sym there ∙ found)) eq)
