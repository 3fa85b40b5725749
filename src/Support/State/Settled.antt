-- ===== src/Support/State/Settled.antt =====
-- Facts and the store agree on who is supported.
use gess.Prelude.{
  ◌≡◌, ◌≢◌, if◌then◌else◌, Bool, true, false, not, ◌&&◌, ℕ, ◌+◌, ◌==◌, nat_eq, list_eq, ltb, arith,
}
use gess.Support.{Store, count_for_fact}
use gess.Support.Keys.{fact_id_eq}
use gess.Support.State.{
  FactSupportCode, stated_code, logical_code, stated_and_logical_code, WorkingFact,
  count_transition, update_fact_support_state, add_stated_support, remove_stated_support,
  settle_fact, set_support_state, resolved_support_state, next_state, state_of,
}

-- Whether a state says that the fact was asserted by itself.
abbrev pub is_stated : FactSupportCode → Bool
is_stated stated_code = true
is_stated logical_code = false
is_stated stated_and_logical_code = true

-- Whether a state fits a number of supporting edges.
abbrev pub fits : FactSupportCode → ℕ → Bool
fits stated_code n = n == 0
fits logical_code n = true
fits stated_and_logical_code n = ltb 0 n

abbrev pub code_beq : FactSupportCode → FactSupportCode → Bool
code_beq stated_code stated_code = true
code_beq logical_code logical_code = true
code_beq stated_and_logical_code stated_and_logical_code = true
code_beq _ _ = false

-- An update fits the state of a fact to its support. It keeps whether the fact is stated, and
-- the edges, and counts a transition exactly where the state changes.
pub update_fact_support_state_lem :
    (s : Store) (f : WorkingFact)
    → let (t, f') = update_fact_support_state s f in
      (fits f'.support_state (count_for_fact t f'.id) ≡ true)
      × (is_stated f'.support_state ≡ is_stated f.support_state)
      × (f'.id ≡ f.id)
      × (t.edges ≡ s.edges)
      × (t.counters.metadata_only_transitions
          ≡ s.counters.metadata_only_transitions
            + (if code_beq f.support_state f'.support_state then 0 else 1))
unfolding update_fact_support_state count_transition set_support_state resolved_support_state
    next_state state_of count_for_fact
update_fact_support_state_lem s f = ground arith

-- A fact that was asserted over logical support and is then withdrawn is logical again; the two
-- calls count two transitions and change nothing else. On a fact that is not logical the first of
-- them does nothing.
pub remove-add_stated :
    (s : Store) (f : WorkingFact)
    → let ((t, g), added) = add_stated_support s f in
      ((f.support_state ≡ logical_code)
        → (added ≡ true)
          × (remove_stated_support t g ≡ ((count_transition (count_transition s), f), true)))
      × (f.support_state ≢ logical_code → add_stated_support s f ≡ ((s, f), false))
unfolding add_stated_support remove_stated_support set_support_state resolved_support_state state_of
remove-add_stated s f = ground arith

-- After a loss of support a fact is retracted exactly where nothing holds it any more: it was not
-- stated and no edge leads to it. A fact that stays has the state that fits its support, provided
-- that a fact that was only stated has no support, and stays stated where it was.
pub settle_fact_lem :
    (s : Store) (f : WorkingFact)
    → (f.support_state ≡ stated_code → count_for_fact s f.id ≡ 0)
    → let ((t, g), retracted) = settle_fact s f in
      (retracted ≡ not (is_stated f.support_state) && (count_for_fact s f.id == 0))
      × (retracted ≡ false → fits g.support_state (count_for_fact t g.id) ≡ true)
      × (is_stated g.support_state ≡ is_stated f.support_state)
unfolding settle_fact set_support_state resolved_support_state state_of count_transition
    count_for_fact
settle_fact_lem s f h = ground arith
