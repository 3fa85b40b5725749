-- ===== src/ListPattern/Split.antt =====
-- `matchItems` (internal/engine/list_pattern.go) on patterns with one element of variable length.
use gess.Prelude.{
  ◌≡◌, refl, sym, ap, ◌∙◌, subst, Bool, true, false, Option, none, some, List, ◌∷◌, ◌++◌, ℕ, ◌+◌,
  ◌-◌, nat_eq, length, length-append, get_elem?, take, drop, ltb, ◌↔◌, arith, Bool-cases, inl, inr,
}
use gess.Prelude.Result.{Result}
use gess.ListPattern.{
  Element, Match, segment_element, answers, is_variable, captured, match_items_around_variable,
  match_items,
}
use gess.ListPattern.Fixed.{Fits}
use gess.ListPattern.Around.{
  all_fixed, variable_found, drop-front, take-front, get_elem-behind, Fits-length, around-Fits,
  Splits, cut,
}

module _ {E V : Type 0} (evaluate : E → Result (Option V)) (equal : V → V → Bool) where
  around_answer :
      (pre suf : List (Element E)) (e : Element E) (items : List V)
      → all_fixed pre ≡ true
      → all_fixed suf ≡ true
      → is_variable e.kind ≡ true
      → (match_items evaluate equal (pre ++ e ∷ suf) items).answer
        ≡ match_items_around_variable evaluate equal
            (some (length pre))
            (length pre + length suf)
            (pre ++ e ∷ suf)
            items
  unfolding match_items
  around_answer pre suf e items p s v =
      ap (λ x. match_items_around_variable evaluate equal x.0 x.1 (pre ++ e ∷ suf) items)
        (variable_found pre suf e p s v)

  too_short :
      (pre suf : List (Element E)) (e : Element E) (items : List V)
      → ltb (length items) (length pre + length suf) ≡ true
      → match_items_around_variable evaluate equal
          (some (length pre))
          (length pre + length suf)
          (pre ++ e ∷ suf)
          items
        ≡ answers false
  unfolding match_items_around_variable
  too_short pre suf e items h = rw (match_items_around_variable, h) refl

  cut_of_answer :
      (pre suf : List (Element E)) (e : Element E) (items : List V)
      → match_items_around_variable evaluate equal
          (some (length pre))
          (length pre + length suf)
          (pre ++ e ∷ suf)
          items
        ≡ answers true
      → Splits evaluate equal pre suf items
  cut_of_answer pre suf e items h =
      elim (Bool-cases (ltb (length items) (length pre + length suf))) [
        | inl short ↦
            let clash : answers false ≡ answers true = sym (too_short pre suf e items short) ∙ h in
            cc
        | inr long ↦
            let (a, m, b, same, la, lb) = cut (length pre) (length suf) items (ground arith) in
            let fits = (around-Fits evaluate equal pre suf e a m b la lb).0 (
              subst
                (λ l.
                  match_items_around_variable evaluate equal (some (length pre))
                    (length pre + length suf) (pre ++ e ∷ suf) l
                  ≡ answers true)
                same h) in
            (a, m, b, same, fits.0, fits.1)
      ]

  answer_of_cut :
      (pre suf : List (Element E)) (e : Element E) (a m b : List V)
      → Fits evaluate equal pre a
      → Fits evaluate equal suf b
      → match_items_around_variable evaluate equal
          (some (length pre))
          (length pre + length suf)
          (pre ++ e ∷ suf)
          (a ++ (m ++ b))
        ≡ answers true
  answer_of_cut pre suf e a m b f g =
      (around-Fits evaluate equal pre suf e a m b (Fits-length evaluate equal pre a f)
          (Fits-length evaluate equal suf b g)).1
        (f, g)

  -- A pattern with one element of variable length matches a list exactly where the list can be cut
  -- in three, so that the elements before that one fit the first part and those behind it the last,
  -- one by one; the middle part may be anything.
  pub match_items-Splits :
      (pre suf : List (Element E)) (e : Element E) (items : List V)
      → all_fixed pre ≡ true
      → all_fixed suf ≡ true
      → is_variable e.kind ≡ true
      → ((match_items evaluate equal (pre ++ e ∷ suf) items).answer ≡ answers true)
        ↔ Splits evaluate equal pre suf items
  match_items-Splits pre suf e items p s v =
      let answer = around_answer pre suf e items p s v in
      (
        λ h. cut_of_answer pre suf e items (sym answer ∙ h),
        λ (a, m, b, same, f, g).
            answer
            ∙ ap
                (λ l.
                  match_items_around_variable evaluate equal (some (length pre))
                    (length pre + length suf) (pre ++ e ∷ suf) l)
                same
            ∙ answer_of_cut pre suf e a m b f g,
      )

  captured_segment :
      (e : Element E) (m : List V)
      → e.kind ≡ segment_element
      → captured evaluate equal (some e) m ≡ some (e, m)
  captured_segment e m v =
      let whole : Option (Element E × List V) = some (e, m) in
      subst
        (λ k.
          elim k as (λ _. Option (Element E × List V)) [ segment_element ↦ whole | _ ↦ none ]
          ≡ whole)
        (sym v) refl

  captured_middle :
      (pre suf : List (Element E)) (e : Element E) (a m b : List V)
      → e.kind ≡ segment_element
      → length a ≡ length pre
      → length b ≡ length suf
      → captured evaluate equal (get_elem? (pre ++ e ∷ suf) (length pre)) (
          take
            (length (a ++ (m ++ b))
              - (length (pre ++ e ∷ suf) - length pre - 1)
              - (length pre + length suf - (length (pre ++ e ∷ suf) - length pre - 1)))
            (drop
              (length pre + length suf - (length (pre ++ e ∷ suf) - length pre - 1))
              (a ++ (m ++ b))))
        ≡ some (e, m)
  captured_middle pre suf e a m b v la lb =
      let size = length-append a (m ++ b) in
      let sizes = length-append m b in
      let pattern = length-append pre (e ∷ suf) in
      let start : length pre + length suf - (length (pre ++ e ∷ suf) - length pre - 1) ≡ length a =
        omega (arith, pattern) in
      let count : length (a ++ (m ++ b)) - (length (pre ++ e ∷ suf) - length pre - 1) - length a
          ≡ length m =
        omega (arith, size, sizes, pattern) in
      let here : get_elem? (pre ++ e ∷ suf) (length pre) ≡ some e =
        ap (get_elem? (pre ++ e ∷ suf)) (omega arith) ∙ get_elem-behind pre (e ∷ suf) 0 in
      rw (start, count, drop-front a (m ++ b), take-front m b, here) (captured_segment e m v)

  abbrev captures : Element E → List V → Match E V
  captures e m = record { answer = answers true; capture = some (e, m) }

  -- `matchItems` once the variable element is found.
  abbrev found_match : List (Element E) → List V → Option ℕ × ℕ → Match E V
  found_match es items x =
      let answer = match_items_around_variable evaluate equal x.0 x.1 es items in
      record {
        answer = answer;
        capture = elim answer [
          | answers true ↦ elim x.0 [
            | none ↦ none
            | some i ↦
                let suffix = length es - i - 1 in
                let start = x.1 - suffix in
                captured evaluate equal (get_elem? es i)
                  (take (length items - suffix - start) (drop start items))
          ]
          | _ ↦ none
        ];
      }

  -- Where the variable element is a segment and the outer parts of a list fit, the pattern matches and
  -- captures exactly the middle part.
  pub match_items-capture :
      (pre suf : List (Element E)) (e : Element E) (a m b : List V)
      → all_fixed pre ≡ true
      → all_fixed suf ≡ true
      → e.kind ≡ segment_element
      → Fits evaluate equal pre a
      → Fits evaluate equal suf b
      → match_items evaluate equal (pre ++ e ∷ suf) (a ++ (m ++ b))
        ≡ record { answer = answers true; capture = some (e, m) }
  unfolding match_items
  match_items-capture pre suf e a m b p s v f g =
      let found = variable_found pre suf e p s (rw v refl) in
      let matched = answer_of_cut pre suf e a m b f g in
      subst (λ x. found_match (pre ++ e ∷ suf) (a ++ (m ++ b)) x ≡ captures e m) (sym found)
        (rw matched (
          ap (λ c. record { answer = answers true; capture = c })
            (captured_middle pre suf e a m b v (Fits-length evaluate equal pre a f)
              (Fits-length evaluate equal suf b g))))
