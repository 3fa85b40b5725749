-- ===== src/ListPattern/Fixed.antt =====
-- Patterns in which no element has a variable length.
use gess.Prelude.{
  ◌≡◌, ◌≢◌, refl, ap, ◌∙◌, Bool, true, Option, none, some, List, [], ◌∷◌, ℕ, suc, ◌+◌, ◌==◌, nat_eq,
  length, get_elem?, ◌↔◌, arith, Bool-cases, inl, inr,
}
use gess.Prelude.Result.{Result, ok}
use gess.ListPattern.{
  Element, Answer, answers, matches_item, then_match, match_prefix, match_items_around_variable,
}

module _ {E V : Type 0} (evaluate : E → Result (Option V)) (equal : V → V → Bool) where
  -- Each element fits the item at its place.
  abbrev pub Fits : List (Element E) → List V → Type 0
  Fits [] [] = Unit {0}
  Fits [] (v ∷ vs) = ⊥
  Fits (e ∷ es) [] = ⊥
  Fits (e ∷ es) (v ∷ vs) = (matches_item evaluate equal e v ≡ ok true) × Fits es vs

  pub then_match_iff :
      (e : Element E) (item : V) (rest : Answer)
      → (then_match evaluate equal (some item) e rest ≡ answers true)
        ↔ ((matches_item evaluate equal e item ≡ ok true) × (rest ≡ answers true))
  unfolding then_match
  then_match_iff e item rest = ground arith

  prefix-Fits :
      (i : ℕ) (es : List (Element E)) (items a : List V)
      → length a ≡ length es
      → ((j : ℕ) → get_elem? items (i + j) ≡ get_elem? a j)
      → (match_prefix evaluate equal none i es items ≡ answers true) ↔ Fits es a
  unfolding match_prefix
  prefix-Fits i [] items [] l h = (λ x. tt, λ x. refl)
  prefix-Fits i [] items (v ∷ vs) l h = absurd (omega arith)
  prefix-Fits i (e ∷ es) items [] l h = absurd (omega arith)
  prefix-Fits i (e ∷ es) items (v ∷ vs) l h =
      let here : get_elem? items i ≡ some v = ap (get_elem? items) (omega arith) ∙ h 0 in
      let next =
        prefix-Fits (suc i) es items vs (omega arith)
          (λ j. ap (get_elem? items) (omega arith) ∙ h (suc j)) in
      let step = then_match_iff e v (match_prefix evaluate equal none (suc i) es items) in
      rw here ((λ x. ((step.0 x).0, next.0 (step.0 x).1)), λ x. step.1 (x.0, next.1 x.1))

  different-Fits : (es : List (Element E)) (a : List V) → length a ≢ length es → ¬ Fits es a
  different-Fits [] [] n f = n refl
  different-Fits [] (v ∷ vs) n f = f
  different-Fits (e ∷ es) [] n f = f
  different-Fits (e ∷ es) (v ∷ vs) n f = different-Fits es vs (λ x. n (ap suc x)) f.1

  -- A pattern without an element of variable length matches a list exactly where the two are
  -- equally long and each element fits the item at its place.
  pub fixed-Fits :
      (es : List (Element E)) (fixed : ℕ) (items : List V)
      → (match_items_around_variable evaluate equal none fixed es items ≡ answers true)
        ↔ Fits es items
  unfolding match_items_around_variable
  fixed-Fits es fixed items = elim (Bool-cases (length items == length es)) [
    | inl same ↦
        rw (same, match_items_around_variable)
          (prefix-Fits 0 es items items (ground arith) (λ j. ap (get_elem? items) (omega arith)))
    | inr other ↦
        rw (other, match_items_around_variable)
          ((λ x. cc x), λ f. absurd (different-Fits es items (ground arith) f))
  ]
