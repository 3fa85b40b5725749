-- ===== src/Support/State.antt =====
-- The support states of facts and the addition of support by a firing rule
-- (internal/engine/logical_support.go, `factSupportCode` of internal/engine/fact.go,
-- `FactID.String` and `RuleRevisionID.String` of rules/id.go).
-- `digits` is how `strconv` and `fmt` write a number.
pub mod Settled
pub mod Added
use gess.Prelude.{
  if◌then◌else◌, Bool, true, false, not, ◌&&◌, ◌||◌, Option, none, some, List, [], ◌∷◌, ◌++◌, ℕ,
  ◌+◌, Text, codes, ◌==◌, nat_eq, ltb,
}
use gess.Prelude.Result.{Result, ok, err, fact_not_found, logical_support_unavailable}
use gess.Module.{is_zero}
use gess.Support.{Edge, Store, Counters, support_added, add_edge, count_for_fact, fact_is_zero}
use gess.Support.Keys.{FactId, IdentityKey, SourceKey}

pub data FactSupportState : Type 0 where
  stated_support logical_support stated_and_logical_support metadata_only_support : FactSupportState

pub data FactSupportCode : Type 0 where
  stated_code logical_code stated_and_logical_code : FactSupportCode

-- What the operations read of a `workingFact`.
pub record WorkingFact : Type 0 where
  pub id : FactId
  pub support_state : FactSupportCode

unfoldable pub code_from_state : FactSupportState → FactSupportCode
code_from_state stated_support = stated_code
code_from_state logical_support = logical_code
code_from_state stated_and_logical_support = stated_and_logical_code
code_from_state metadata_only_support = stated_code

unfoldable pub state_of : FactSupportCode → FactSupportState
state_of stated_code = stated_support
state_of logical_code = logical_support
state_of stated_and_logical_code = stated_and_logical_support

unfoldable pub set_support_state : WorkingFact → FactSupportState → WorkingFact
unfolding code_from_state
set_support_state f state = record f { support_state = code_from_state state }

unfoldable pub resolved_support_state : WorkingFact → FactSupportState
unfolding state_of
resolved_support_state f = state_of f.support_state

unfoldable pub count_transition : Store → Store
count_transition s = record s {
  counters = record s.counters {
    metadata_only_transitions = s.counters.metadata_only_transitions + 1;
  };
}

-- `before != fact.resolvedSupportState()`.
abbrev pub same_state : FactSupportState → FactSupportState → Bool
same_state stated_support stated_support = true
same_state logical_support logical_support = true
same_state stated_and_logical_support stated_and_logical_support = true
same_state metadata_only_support metadata_only_support = true
same_state _ _ = false

-- The state that `updateFactSupportState` chooses, from the one before and whether there is support.
unfoldable pub next_state : FactSupportState → Bool → FactSupportState
next_state stated_support logical = if logical then stated_and_logical_support else stated_support
next_state stated_and_logical_support logical =
    if logical then stated_and_logical_support else stated_support
next_state logical_support logical = if logical then logical_support else logical_support
next_state metadata_only_support logical = if logical then logical_support else logical_support

unfoldable pub update_fact_support_state : Store → WorkingFact → Store × WorkingFact
unfolding next_state set_support_state resolved_support_state count_for_fact count_transition
update_fact_support_state s f =
    let before = resolved_support_state f in
    let f' = set_support_state f (next_state before (ltb 0 (count_for_fact s f.id))) in
    (if same_state before (resolved_support_state f') then s else count_transition s, f')

unfoldable pub make_fact_logical_only : WorkingFact → WorkingFact
unfolding set_support_state
make_fact_logical_only f = set_support_state f logical_support

unfoldable pub add_stated_support : Store → WorkingFact → (Store × WorkingFact) × Bool
unfolding set_support_state resolved_support_state count_transition
add_stated_support s f =
    if not (same_state (resolved_support_state f) logical_support)
    then ((s, f), false)
    else ((count_transition s, set_support_state f stated_and_logical_support), true)

unfoldable pub remove_stated_support : Store → WorkingFact → (Store × WorkingFact) × Bool
unfolding set_support_state resolved_support_state count_transition
remove_stated_support s f =
    if not (same_state (resolved_support_state f) stated_and_logical_support)
    then ((s, f), false)
    else ((count_transition s, set_support_state f logical_support), true)

-- What the loop of `removeLogicalSupportsForSources` does with a fact that lost support: whether
-- it has to be retracted, or the store and the fact that stay.
unfoldable pub settle_fact : Store → WorkingFact → (Store × WorkingFact) × Bool
unfolding set_support_state resolved_support_state count_for_fact count_transition
settle_fact s f =
    let supported = ltb 0 (count_for_fact s f.id) in
    if same_state (resolved_support_state f) logical_support && not supported
    then ((s, f), true)
    else if same_state (resolved_support_state f) stated_and_logical_support && not supported
    then ((count_transition s, set_support_state f stated_support), false)
    else ((s, f), false)

-- `reteGraphPropagationEvent`, with what support needs of its origin.
pub record PropagationEvent : Type 0 where
  pub rule_id : Text
  pub rule_revision_id : Text
  pub activation_id : Text
  pub activation_identity_key : IdentityKey
  pub source_generation : ℕ

abbrev pub identity_is_zero : IdentityKey → Bool
identity_is_zero k = (k.scope_hash == 0) && (k.hash == 0)

unfoldable pub source_from_event : PropagationEvent → Option SourceKey
unfolding is_zero
source_from_event event =
    if identity_is_zero event.activation_identity_key || is_zero event.rule_revision_id
    then none
    else some (record {
      generation = event.source_generation;
      rule_revision_id = event.rule_revision_id;
      identity_key = event.activation_identity_key;
    })

abbrev pub new_edge : PropagationEvent → Text → FactId → List FactId → Edge
new_edge event support_id fact supporting_facts = record {
  support_id = support_id;
  fact_id = fact;
  rule_id = event.rule_id;
  rule_revision_id = event.rule_revision_id;
  activation_id = event.activation_id;
  generation = event.source_generation;
  supporting_facts = supporting_facts;
}

module _ (digits : ℕ → Text) where
  unfoldable pub fact_id_string : FactId → Text
  unfolding fact_is_zero
  fact_id_string id =
      if fact_is_zero id
      then codes "fact:zero"
      else codes "fact:g" ++ digits id.generation ++ codes ":" ++ digits id.sequence

  unfoldable pub rule_revision_string : Text → Text
  unfolding is_zero
  rule_revision_string id = if is_zero id then codes "rule-revision:zero" else id

  unfoldable pub logical_support_id : SourceKey → FactId → Text
  unfolding fact_id_string rule_revision_string fact_is_zero
  logical_support_id source fact =
      if identity_is_zero source.identity_key || fact_is_zero fact
      then []
      else codes "support:v2:"
        ++ rule_revision_string source.rule_revision_id
        ++ codes ":"
        ++ digits source.identity_key.scope_hash
        ++ codes ":"
        ++ digits source.identity_key.hash
        ++ codes ":"
        ++ fact_id_string fact

  -- `addLogicalSupportForPropagationEvent`, of a fact that is there.
  unfoldable pub add_logical_support :
      Store → WorkingFact → PropagationEvent → List FactId → (Store × WorkingFact) × Result Bool
  unfolding source_from_event logical_support_id is_zero add_edge update_fact_support_state
  add_logical_support s f event supporting_facts = elim (source_from_event event) [
    | none ↦ ((s, f), err logical_support_unavailable)
    | some source ↦
        let support_id = logical_support_id source f.id in
        if is_zero support_id
        then ((s, f), err logical_support_unavailable)
        else let edge = new_edge event support_id f.id supporting_facts in
          let (s', added) = add_edge s source edge in
          if added
          then (let (t, f') = update_fact_support_state s' f in
              ((record t { events = t.events ++ support_added edge ∷ [] }, f'), ok true))
          else ((s', f), ok false)
  ]
