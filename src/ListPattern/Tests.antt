-- ===== src/ListPattern/Tests.antt =====
-- List patterns at concrete lists of numbers, where an element's expression is its value.
use gess.Prelude.{◌≡◌, refl, true, Option, some, List, [], ◌∷◌, ℕ, codes, nat_beq, ◌↔◌}
use gess.Prelude.Result.{Result, ok}
use gess.ListPattern.{
  Element, answers, value_element, wildcard_element, segment_element, match_items, matches_item,
}
use gess.ListPattern.Around.{all_fixed, Splits}
use gess.ListPattern.Split.{match_items-Splits, match_items-capture}

abbrev evaluate : ℕ → Result (Option ℕ)
evaluate n = ok (some n)

abbrev three : Element ℕ
three = record { kind = value_element; expression = 3; binding = []; binding_slot = 0 }

abbrev any : Element ℕ
any = record three { kind = wildcard_element }

abbrev middle : Element ℕ
middle = record three { kind = segment_element; binding = codes "middle" }

-- The segment between a 3 and a last item.
segment :
    match_items evaluate nat_beq (three ∷ middle ∷ any ∷ []) (3 ∷ 5 ∷ 6 ∷ 8 ∷ [])
    ≡ record { answer = answers true; capture = some (middle, 5 ∷ 6 ∷ []) }
unfolding match_items
segment = refl

abbrev ends : List (Element ℕ)
ends = any ∷ []

match_items-Splits_example :
    ((match_items evaluate nat_beq (three ∷ middle ∷ ends) (3 ∷ 5 ∷ 6 ∷ 8 ∷ [])).answer
      ≡ answers true)
    ↔ Splits evaluate nat_beq (three ∷ []) ends (3 ∷ 5 ∷ 6 ∷ 8 ∷ [])
unfolding all_fixed
match_items-Splits_example =
    match_items-Splits evaluate nat_beq (three ∷ []) ends middle (3 ∷ 5 ∷ 6 ∷ 8 ∷ []) refl refl refl

match_items-capture_example :
    match_items evaluate nat_beq (three ∷ middle ∷ ends) (3 ∷ 5 ∷ 6 ∷ 8 ∷ [])
    ≡ record { answer = answers true; capture = some (middle, 5 ∷ 6 ∷ []) }
unfolding all_fixed matches_item
match_items-capture_example =
    match_items-capture evaluate nat_beq (three ∷ []) ends middle (3 ∷ []) (5 ∷ 6 ∷ []) (8 ∷ [])
      refl refl refl (refl, tt) (refl, tt)
