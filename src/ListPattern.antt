-- ===== src/ListPattern.antt =====
-- Matching a list against a pattern with at most one element of variable length
-- (internal/engine/list_pattern.go). `evaluate` is the evaluation of an element's expression on the
-- fact and the bindings at hand, and `equal` is `Value.Equal`; `canonicalValue` of the captured
-- items is not part of the model. Reading a slice out of range is the answer `panics`.
pub mod Fixed
pub mod Around
pub mod Split
mod Tests
use gess.Prelude.{
  if◌then◌else◌, Bool, true, false, not, ◌&&◌, Option, none, some, List, [], ◌∷◌, ℕ, zero, suc, ◌+◌,
  ◌-◌, ◌==◌, nat_eq, Text, length, get_elem?, take, drop, ltb,
}
use gess.Prelude.Result.{Result, ok, err, Error}

pub data ElementKind : Type 0 where
  unknown_element value_element wildcard_element segment_element rest_wildcard_element : ElementKind

-- `compiledListPatternElement`; only a segment has a slot.
pub record Element (E : Type 0) : Type 0 where
  pub kind : ElementKind
  pub expression : E
  pub binding : Text
  pub binding_slot : ℕ

pub data Answer : Type 0 where
  answers : Bool → Answer
  fails : Error → Answer
  panics : Answer

abbrev pub is_variable : ElementKind → Bool
is_variable segment_element = true
is_variable rest_wildcard_element = true
is_variable _ = false

abbrev pub is_at : Option ℕ → ℕ → Bool
is_at none i = false
is_at (some v) i = i == v

-- What `matchItems` returns: the answer, and the items of the segment with its element.
pub record Match (E V : Type 0) : Type 0 where
  pub answer : Answer
  pub capture : Option (Element E × List V)

module _ {E : Type 0} where
  -- The loop of `variableElementIndexAndFixedCount`.
  unfoldable pub variable_from : ℕ → Option ℕ → ℕ → List (Element E) → Option ℕ × ℕ
  variable_from i v fixed [] = (v, fixed)
  variable_from i v fixed (e ∷ es) =
      if is_variable e.kind
      then variable_from (suc i) (some i) fixed es
      else variable_from (suc i) v (suc fixed) es

  unfoldable pub variable_element_index_and_fixed_count : List (Element E) → Option ℕ × ℕ
  unfolding variable_from
  variable_element_index_and_fixed_count es = variable_from 0 none 0 es

module _ {E V : Type 0} where
  module _ (evaluate : E → Result (Option V)) (equal : V → V → Bool) where
    unfoldable pub matches_item : Element E → V → Result Bool
    matches_item e item = elim e.kind [
      | value_element ↦ elim (evaluate e.expression) [
        | err x ↦ err x
        | ok none ↦ ok false
        | ok (some v) ↦ ok (equal item v)
      ]
      | wildcard_element ↦ ok true
      | _ ↦ ok false
    ]

    -- One round of both loops: the item is read and tested, and the loop goes on where it fits.
    unfoldable pub then_match : Option V → Element E → Answer → Answer
    unfolding matches_item
    then_match none e rest = panics
    then_match (some item) e rest = elim (matches_item e item) [
      | err x ↦ fails x
      | ok false ↦ answers false
      | ok true ↦ rest
    ]

    unfoldable pub match_prefix : Option ℕ → ℕ → List (Element E) → List V → Answer
    unfolding then_match
    match_prefix v i [] items = answers true
    match_prefix v i (e ∷ es) items =
        let rest = match_prefix v (suc i) es items in
        if is_at v i then answers true else then_match (get_elem? items i) e rest

    abbrev pub at_element : Option (Element E) → (Element E → Answer) → Answer
    at_element none k = panics
    at_element (some e) k = k e

    -- The second loop, with `k` elements to go, down to the one behind the variable element `v`.
    unfoldable pub match_suffix : ℕ → ℕ → List (Element E) → List V → ℕ → Answer
    unfolding then_match
    match_suffix v zero es items end = answers true
    match_suffix v (suc k) es items end =
        let rest = match_suffix v k es items end in
        at_element (get_elem? es (v + suc k)) (λ e. then_match (get_elem? items (end + k)) e rest)

    abbrev pub and_then : Answer → Answer → Answer
    and_then (answers true) next = next
    and_then (answers false) next = answers false
    and_then (fails x) next = fails x
    and_then panics next = panics

    unfoldable pub match_items_around_variable : Option ℕ → ℕ → List (Element E) → List V → Answer
    unfolding match_prefix match_suffix
    match_items_around_variable none fixed es items =
        if not (length items == length es) then answers false else match_prefix none 0 es items
    match_items_around_variable (some v) fixed es items =
        let suffix = length es - v - 1 in
        if ltb (length items) fixed
        then answers false
        else and_then (match_prefix (some v) 0 es items)
            (match_suffix v suffix es items (length items - suffix))

    abbrev pub captured : Option (Element E) → List V → Option (Element E × List V)
    captured none items = none
    captured (some e) items = elim e.kind [ segment_element ↦ some (e, items) | _ ↦ none ]

    unfoldable pub match_items : List (Element E) → List V → Match E V
    unfolding variable_element_index_and_fixed_count match_items_around_variable
    match_items es items =
        let (v, fixed) = variable_element_index_and_fixed_count es in
        let answer = match_items_around_variable v fixed es items in
        record {
          answer = answer;
          capture = elim answer [
            | answers true ↦ elim v [
              | none ↦ none
              | some i ↦
                  let suffix = length es - i - 1 in
                  let start = fixed - suffix in
                  captured (get_elem? es i)
                    (take (length items - suffix - start) (drop start items))
            ]
            | _ ↦ none
          ];
        }
