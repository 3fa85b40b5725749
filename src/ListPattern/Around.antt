-- ===== src/ListPattern/Around.antt =====
-- Patterns with one element of variable length (internal/engine/list_pattern.go).
use gess.Prelude.{
  ◌≡◌, refl, sym, ap, ap₂, append-nil, ◌∙◌, subst, Bool, true, false, not, ◌&&◌, Option, none, some,
  List, [], ◌∷◌, ◌++◌, ℕ, zero, suc, ◌+◌, ◌-◌, ◌≤◌, ◌==◌, nat_eq, length, length-append, get_elem?,
  take, drop, ltb, ◌↔◌, arith,
}
use gess.Prelude.Result.{Result, ok}
use gess.ListPattern.{
  Element, Answer, answers, fails, panics, is_variable, at_element, and_then, matches_item,
  then_match, match_prefix, match_suffix, match_items_around_variable, variable_from,
  variable_element_index_and_fixed_count,
}
use gess.ListPattern.Fixed.{Fits, then_match_iff}

not_and : (a b : Bool) → (not a && b) ≡ true → (a ≡ false) × (b ≡ true)
not_and a b h = (ground arith, ground arith)

module _ {E : Type 0} where
  -- No element has a variable length.
  unfoldable pub all_fixed : List (Element E) → Bool
  all_fixed [] = true
  all_fixed (e ∷ es) = not (is_variable e.kind) && all_fixed es

  variable_from_fixed :
      (i f : ℕ) (v : Option ℕ) (es rest : List (Element E))
      → all_fixed es ≡ true
      → variable_from i v f (es ++ rest) ≡ variable_from (i + length es) v (f + length es) rest
  unfolding all_fixed variable_from
  variable_from_fixed i f v [] rest h =
      ap₂ (λ a b. variable_from a v b rest) (omega arith) (omega arith)
  variable_from_fixed i f v (e ∷ es) rest h =
      let (fixed, others) = not_and (is_variable e.kind) (all_fixed es) h in
      rw fixed (
        variable_from_fixed (suc i) (suc f) v es rest others
        ∙ ap₂ (λ a b. variable_from a v b rest) (omega arith) (omega arith))

  variable_here :
      (i f : ℕ) (suf : List (Element E)) (e : Element E)
      → is_variable e.kind ≡ true
      → variable_from i none f (e ∷ suf) ≡ variable_from (suc i) (some i) f suf
  unfolding variable_from
  variable_here i f suf e v = rw v refl

  -- The index of the variable element and the number of the others.
  pub variable_found :
      (pre suf : List (Element E)) (e : Element E)
      → all_fixed pre ≡ true
      → all_fixed suf ≡ true
      → is_variable e.kind ≡ true
      → variable_element_index_and_fixed_count (pre ++ e ∷ suf)
        ≡ (some (length pre), length pre + length suf)
  unfolding variable_element_index_and_fixed_count variable_from
  variable_found pre suf e p s v =
      variable_from_fixed 0 0 none pre (e ∷ suf) p
      ∙ variable_here (0 + length pre) (0 + length pre) suf e v
      ∙ ap (variable_from (suc (0 + length pre)) (some (0 + length pre)) (0 + length pre))
          (sym (append-nil suf))
      ∙ variable_from_fixed (suc (0 + length pre)) (0 + length pre) (some (0 + length pre)) suf [] s
      ∙ ap₂ (λ a b. (some a, b)) (omega arith) (omega arith)

module _ {A : Type 0} where
  from_start : (items : List A) (j : ℕ) → get_elem? items (0 + j) ≡ get_elem? items j
  from_start items j = ap (get_elem? items) (omega arith)

  pub drop-front : (a r : List A) → drop (length a) (a ++ r) ≡ r
  drop-front [] r = refl
  drop-front (x ∷ a) r = drop-front a r

  pub take-front : (a r : List A) → take (length a) (a ++ r) ≡ a
  take-front [] r = refl
  take-front (x ∷ a) r = ap (◌∷◌ x) (take-front a r)

  pub get_elem-behind : (a r : List A) (j : ℕ) → get_elem? (a ++ r) (length a + j) ≡ get_elem? r j
  get_elem-behind [] r j = ap (get_elem? r) (omega arith)
  get_elem-behind (x ∷ a) r j =
      let place : suc (length a) + j ≡ suc (length a + j) = omega arith in
      ap (get_elem? (x ∷ (a ++ r))) place ∙ get_elem-behind a r j

  cut_end :
      (n : ℕ) (items : List A)
      → n ≤ length items
      → (m b : List A) × (items ≡ m ++ b) × (length b ≡ length items - n)
  cut_end zero items h = ([], items, refl, omega arith)
  cut_end (suc n) [] h = absurd (omega arith)
  cut_end (suc n) (x ∷ items) h =
      let (m, b, e, l) = cut_end n items (omega arith) in (x ∷ m, b, ap (◌∷◌ x) e, l ∙ omega arith)

  pub cut :
      (p s : ℕ) (items : List A)
      → p + s ≤ length items
      → (a m b : List A) × (items ≡ a ++ (m ++ b)) × (length a ≡ p) × (length b ≡ s)
  cut zero s items h =
      let (m, b, e, l) = cut_end (length items - s) items (omega arith) in
      ([], m, b, e, refl, l ∙ omega arith)
  cut (suc p) s [] h = absurd (omega arith)
  cut (suc p) s (x ∷ items) h =
      let (a, m, b, e, la, lb) = cut p s items (omega arith) in
      (x ∷ a, m, b, ap (◌∷◌ x) e, ap suc la, lb)

module _ {E V : Type 0} (evaluate : E → Result (Option V)) (equal : V → V → Bool) where
  prefix-Fits :
      (i : ℕ) (pre suf : List (Element E)) (e : Element E) (items a r : List V)
      → length a ≡ length pre
      → ((j : ℕ) → get_elem? items (i + j) ≡ get_elem? (a ++ r) j)
      → (match_prefix evaluate equal (some (i + length pre)) i (pre ++ e ∷ suf) items
          ≡ answers true)
        ↔ Fits evaluate equal pre a
  unfolding match_prefix
  prefix-Fits i [] suf e items [] r l h =
      let here : (i == i + 0) ≡ true = ground arith in rw here (λ x. tt, λ x. refl)
  prefix-Fits i [] suf e items (x ∷ a) r l h = absurd (omega arith)
  prefix-Fits i (p ∷ pre) suf e items [] r l h = absurd (omega arith)
  prefix-Fits i (p ∷ pre) suf e items (x ∷ a) r l h =
      let here : get_elem? items i ≡ some x = ap (get_elem? items) (omega arith) ∙ h 0 in
      let away : (i == i + suc (length pre)) ≡ false = ground arith in
      let next =
        subst
          (λ v.
            (match_prefix evaluate equal (some v) (suc i) (pre ++ e ∷ suf) items ≡ answers true)
            ↔ Fits evaluate equal pre a)
          (omega arith)
          (prefix-Fits (suc i) pre suf e items a r (omega arith)
            (λ j. ap (get_elem? items) (omega arith) ∙ h (suc j))) in
      let step = then_match_iff evaluate equal p x (
        match_prefix evaluate equal (some (i + suc (length pre))) (suc i) (pre ++ e ∷ suf) items) in
      rw (away, here) ((λ y. ((step.0 y).0, next.0 (step.0 y).1)), λ y. step.1 (y.0, next.1 y.1))

  abbrev Meets : Option (Element E) → Option V → Type 0
  Meets (some e) (some v) = matches_item evaluate equal e v ≡ ok true
  Meets _ _ = ⊥

  -- The first `k` elements fit the items at their places.
  abbrev Below : List (Element E) → List V → ℕ → Type 0
  Below es b zero = Unit {0}
  Below es b (suc k) = Meets (get_elem? es k) (get_elem? b k) × Below es b k

  element_read :
      (o : Option (Element E)) (i : Option V) (rest : Answer) (P : Type 0)
      → (rest ≡ answers true) ↔ P
      → (at_element evaluate equal o (λ e. then_match evaluate equal i e rest) ≡ answers true)
        ↔ (Meets o i × P)
  unfolding then_match
  element_read none i rest P next = ((λ x. cc), λ x. absurd x.0)
  element_read (some e) none rest P next = ((λ x. cc), λ x. absurd x.0)
  element_read (some e) (some v) rest P next =
      let step = then_match_iff evaluate equal e v rest in
      ((λ x. ((step.0 x).0, next.0 (step.0 x).1)), λ x. step.1 (x.0, next.1 x.1))

  suffix-Below :
      (v k last : ℕ) (es suf : List (Element E)) (items b : List V)
      → ((j : ℕ) → get_elem? es (v + suc j) ≡ get_elem? suf j)
      → ((j : ℕ) → get_elem? items (last + j) ≡ get_elem? b j)
      → (match_suffix evaluate equal v k es items last ≡ answers true) ↔ Below suf b k
  unfolding match_suffix
  suffix-Below v zero last es suf items b h g = (λ x. tt, λ x. refl)
  suffix-Below v (suc k) last es suf items b h g =
      let next = suffix-Below v k last es suf items b h g in
      rw (h k, g k)
        (element_read (get_elem? suf k) (get_elem? b k)
          (match_suffix evaluate equal v k es items last) (Below suf b k) next)

  Below-cons :
      (e : Element E) (es : List (Element E)) (x : V) (b : List V) (k : ℕ)
      → Below (e ∷ es) (x ∷ b) (suc k)
        ↔ ((matches_item evaluate equal e x ≡ ok true) × Below es b k)
  Below-cons e es x b zero = (λ y. y, λ y. y)
  Below-cons e es x b (suc k) =
      let next = Below-cons e es x b k in
      (λ y. ((next.0 y.1).0, (y.0, (next.0 y.1).1)), λ y. (y.1.0, next.1 (y.0, y.1.1)))

  Below-Fits :
      (es : List (Element E)) (b : List V)
      → length b ≡ length es
      → Below es b (length es) ↔ Fits evaluate equal es b
  Below-Fits [] [] h = (λ x. tt, λ x. tt)
  Below-Fits [] (x ∷ b) h = absurd (omega arith)
  Below-Fits (e ∷ es) [] h = absurd (omega arith)
  Below-Fits (e ∷ es) (x ∷ b) h =
      let next = Below-Fits es b (omega arith) in
      let step = Below-cons e es x b (length es) in
      (λ y. ((step.0 y).0, next.0 (step.0 y).1), λ y. step.1 (y.0, next.1 y.1))

  pub Fits-length :
      (es : List (Element E)) (b : List V) → Fits evaluate equal es b → length b ≡ length es
  Fits-length [] [] f = refl
  Fits-length [] (x ∷ b) f = absurd f
  Fits-length (e ∷ es) [] f = absurd f
  Fits-length (e ∷ es) (x ∷ b) f = ap suc (Fits-length es b f.1)

  and_then_iff :
      (x y : Answer) (P Q : Type 0)
      → (x ≡ answers true) ↔ P
      → (y ≡ answers true) ↔ Q
      → (and_then evaluate equal x y ≡ answers true) ↔ (P × Q)
  and_then_iff (answers true) y P Q f g = ((λ h. (f.0 refl, g.0 h)), λ h. g.1 h.1)
  and_then_iff (answers false) y P Q f g = ((λ h. cc), λ h. f.1 h.0)
  and_then_iff (fails e) y P Q f g = ((λ h. cc), λ h. f.1 h.0)
  and_then_iff panics y P Q f g = ((λ h. cc), λ h. f.1 h.0)

  -- A list cut where the pattern's fixed parts end.
  pub around-Fits :
      (pre suf : List (Element E)) (e : Element E) (a m b : List V)
      → length a ≡ length pre
      → length b ≡ length suf
      → (match_items_around_variable evaluate equal
            (some (length pre))
            (length pre + length suf)
            (pre ++ e ∷ suf)
            (a ++ (m ++ b))
          ≡ answers true)
        ↔ (Fits evaluate equal pre a × Fits evaluate equal suf b)
  unfolding match_items_around_variable
  around-Fits pre suf e a m b la lb =
      let size = length-append a (m ++ b) in
      let sizes = length-append m b in
      let pattern = length-append pre (e ∷ suf) in
      let enough : ltb (length (a ++ (m ++ b))) (length pre + length suf) ≡ false =
        ground (arith, size, sizes) in
      let behind : length (pre ++ e ∷ suf) - length pre - 1 ≡ length suf = omega (arith, pattern) in
      let items = a ++ (m ++ b) in
      let place : 0 + length pre ≡ length pre = omega arith in
      let first =
        subst
          (λ v.
            (match_prefix evaluate equal (some v) 0 (pre ++ e ∷ suf) items ≡ answers true)
            ↔ Fits evaluate equal pre a)
          place (prefix-Fits 0 pre suf e items a (m ++ b) la (from_start items)) in
      let last = length items - length suf in
      let second =
        suffix-Below (length pre) (length suf) last (pre ++ e ∷ suf) suf items b
          (λ j. get_elem-behind pre (e ∷ suf) (suc j))
          (λ j.
            let place : last + j ≡ length a + (length m + j) = omega (arith, size, sizes) in
            ap (get_elem? items) place
            ∙ get_elem-behind a (m ++ b) (length m + j)
            ∙ get_elem-behind m b j) in
      let fits = Below-Fits suf b lb in
      rw (enough, behind, match_items_around_variable)
        (and_then_iff _ _ _ _ first ((λ x. fits.0 (second.0 x)), λ x. second.1 (fits.1 x)))

  -- The list is cut in three: the outer parts fit the elements before and behind the variable one.
  abbrev pub Splits : List (Element E) → List (Element E) → List V → Type 0
  Splits pre suf items =
      (a m b : List V) × (items ≡ a ++ (m ++ b))
      × Fits evaluate equal pre a
      × Fits evaluate equal suf b
