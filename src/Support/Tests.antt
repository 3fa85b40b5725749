-- ===== src/Support/Tests.antt =====
-- The theorems on logical support at a concrete store.
use gess.Prelude.{
  ◌≡◌, ◌≢◌, refl, true, false, not, ◌&&◌, [], ◌∷◌, ℕ, ◌+◌, Text, codes, ◌==◌, nat_eq, list_eq,
}
use gess.Prelude.Assoc.{lookup, contains}
use gess.Prelude.Result.{ok}
use gess.Support.{
  Edge, Store, Counters, ids_of, add_edge, remove_source, purge_received, count_for_fact,
}
use gess.Support.Keys.{FactId, SourceKey, fact_id_eq, source_key_eq}
use gess.Support.Indexes.{IsIndexed, add_edge-IsIndexed}
use gess.Support.Remove.{remove_source-IsIndexed}
use gess.Support.Affected.{remove_source-reported}
use gess.Support.State.{
  WorkingFact, stated_code, logical_code, PropagationEvent, add_logical_support, settle_fact,
}
use gess.Support.State.Settled.{fits, is_stated, settle_fact_lem}
use gess.Support.State.Added.{HasSupport, add_logical_support-IsIndexed}

abbrev order_fact : FactId
order_fact = record { generation = 1; sequence = 4 }

abbrev other_fact : FactId
other_fact = record { generation = 1; sequence = 5 }

abbrev source : SourceKey
source = record {
  generation = 1;
  rule_revision_id = codes "r1";
  identity_key = record { scope_hash = 3; hash = 8 };
}

abbrev edge : Edge
edge = record {
  support_id = codes "s1";
  fact_id = order_fact;
  rule_id = codes "rule";
  rule_revision_id = codes "r1";
  activation_id = codes "a1";
  generation = 1;
  supporting_facts = [];
}

abbrev empty_store : Store
empty_store = record {
  edges = [];
  by_source = [];
  by_fact = [];
  counters = record {
    current_logical_facts = 0;
    current_stated_and_logical_facts = 0;
    current_support_edges = 0;
    support_edges_added = 0;
    support_edges_removed = 0;
    metadata_only_transitions = 0;
  };
  events = [];
}

empty-IsIndexed : IsIndexed empty_store
unfolding lookup contains
empty-IsIndexed = record {
  named = λ id r e. cc;
  source = λ id k. refl;
  fact = λ id f. refl;
  unique = tt;
  counted = refl;
}

abbrev store : Store
store = (add_edge empty_store source edge).0

add_edge-IsIndexed_example : IsIndexed (add_edge empty_store source edge).0
add_edge-IsIndexed_example = add_edge-IsIndexed empty_store source edge empty-IsIndexed

store-IsIndexed : IsIndexed store
store-IsIndexed = add_edge-IsIndexed empty_store source edge empty-IsIndexed

remove_source-IsIndexed_example : IsIndexed (remove_source store source).0
remove_source-IsIndexed_example = remove_source-IsIndexed store source store-IsIndexed

not_reported : contains other_fact (remove_source store source).1 ≡ false
unfolding contains remove_source add_edge gess.Support.Keys.sort_texts
not_reported = refl

remove_source-reported_example :
    contains (codes "s1") (ids_of other_fact (remove_source store source).0.by_fact)
    ≡ contains (codes "s1") (ids_of other_fact store.by_fact)
remove_source-reported_example =
    remove_source-reported store source other_fact store-IsIndexed not_reported (codes "s1")

abbrev derived : WorkingFact
derived = record { id = order_fact; support_state = logical_code }

abbrev asserted : WorkingFact
asserted = record { id = order_fact; support_state = stated_code }

unsupported : stated_code ≡ stated_code → count_for_fact empty_store order_fact ≡ 0
unfolding count_for_fact lookup
unsupported e = refl

settle_fact_lem_example :
    let ((t, g), retracted) = settle_fact empty_store asserted in
    (retracted ≡ not (is_stated stated_code) && (count_for_fact empty_store order_fact == 0))
    × (retracted ≡ false → fits g.support_state (count_for_fact t g.id) ≡ true)
    × (is_stated g.support_state ≡ is_stated stated_code)
settle_fact_lem_example = settle_fact_lem empty_store asserted unsupported

-- Any text will do for a number here.
abbrev digits : ℕ → Text
digits n = (48 + n) ∷ []

abbrev event : PropagationEvent
event = record {
  rule_id = codes "rule";
  rule_revision_id = codes "r1";
  activation_id = codes "a1";
  activation_identity_key = record { scope_hash = 3; hash = 8 };
  source_generation = 1;
}

add_logical_support-IsIndexed_example :
    let ((t, g), r) = add_logical_support digits empty_store derived event [] in
    IsIndexed t
    × (r ≡ ok true → (k : SourceKey) × HasSupport digits event [] empty_store t derived g k)
    × (r ≢ ok true → (t ≡ empty_store) × (g ≡ derived))
add_logical_support-IsIndexed_example =
    add_logical_support-IsIndexed digits event [] empty_store derived empty-IsIndexed

-- Support is added to a derived fact, and adding it again says that it was there.
added_once : (add_logical_support digits empty_store derived event []).1 ≡ ok true
unfolding add_logical_support
added_once = refl
