-- ===== src/Support.antt =====
-- Truth maintenance: the logical support edges and their two indexes
-- (internal/engine/logical_support.go, internal/engine/session_tms_store.go). Sets of identifiers
-- are lists, and the events that are emitted are kept in order.
pub mod Keys
pub mod Indexes
pub mod Remove
pub mod Affected
pub mod Purge
pub mod State
mod Tests
use gess.Prelude.{
  if◌then◌else◌, Bool, true, false, not, ◌&&◌, ◌||◌, Option, none, some, List, [], ◌∷◌, ◌++◌, ℕ,
  suc, ◌+◌, Text, ◌==◌, Eq, nat_eq, list_eq, length, is_some, ltb,
}
use gess.Prelude.Assoc.{Assoc, lookup, insert, delete, contains, set_insert, set_delete}
use gess.Support.Keys.{FactId, SourceKey, IdentityKey, fact_id_eq, source_key_eq, sort_texts}
use gess.Module.{is_zero}

-- `FactID.IsZero`.
unfoldable pub fact_is_zero : FactId → Bool
fact_is_zero id = (id.generation == 0) && (id.sequence == 0)

-- `LogicalSupportEdge`.
pub record Edge : Type 0 where
  pub support_id : Text
  pub fact_id : FactId
  pub rule_id : Text
  pub rule_revision_id : Text
  pub activation_id : Text
  pub generation : ℕ
  pub supporting_facts : List FactId

pub record EdgeRecord : Type 0 where
  pub edge : Edge
  pub source : SourceKey

-- `LogicalSupportCounters`, those that the edges' operations and the facts' states change.
pub record Counters : Type 0 where
  pub current_logical_facts : ℕ
  pub current_stated_and_logical_facts : ℕ
  pub current_support_edges : ℕ
  pub support_edges_added : ℕ
  pub support_edges_removed : ℕ
  pub metadata_only_transitions : ℕ

pub data SupportEvent : Type 0 where
  support_added support_removed : Edge → SupportEvent

-- `sessionTMSStore`.
pub record Store : Type 0 where
  pub edges : Assoc Text EdgeRecord
  pub by_source : Assoc SourceKey (List Text)
  pub by_fact : Assoc FactId (List Text)
  pub counters : Counters
  pub events : List SupportEvent

-- A missing entry of an index reads as the empty set.
abbrev pub or_empty : Option (List Text) → List Text
or_empty none = []
or_empty (some ids) = ids

abbrev pub ids_of {ℓ} : {K : Type ℓ} ⦃e : Eq K⦄ → K → Assoc K (List Text) → List Text
ids_of k index = or_empty (lookup k index)

-- A set that became empty is dropped from its index.
unfoldable pub store_set {ℓ} :
    {K : Type ℓ} ⦃e : Eq K⦄ → K → List Text → Assoc K (List Text) → Assoc K (List Text)
unfolding insert delete
store_set k [] index = delete k index
store_set k (id ∷ ids) index = insert k (id ∷ ids) index

-- Takes an identifier out of the set at `k`, where there is one.
unfoldable pub unlink {ℓ} :
    {K : Type ℓ} ⦃e : Eq K⦄ → K → Text → Assoc K (List Text) → Assoc K (List Text)
unfolding lookup store_set set_delete
unlink k id index = elim (lookup k index) [
  | none ↦ index
  | some ids ↦ store_set k (set_delete id ids) index
]

-- The part of `addEdge` behind its guards.
unfoldable pub link_edge : Store → SourceKey → Edge → Store
unfolding lookup insert set_insert
link_edge s source edge = record s {
  edges = insert edge.support_id (record { edge = edge; source = source }) s.edges;
  by_source = insert source (set_insert edge.support_id (ids_of source s.by_source)) s.by_source;
  by_fact =
      insert edge.fact_id (set_insert edge.support_id (ids_of edge.fact_id s.by_fact)) s.by_fact;
  counters = record s.counters { support_edges_added = s.counters.support_edges_added + 1 };
}

unfoldable pub add_edge : Store → SourceKey → Edge → Store × Bool
unfolding lookup link_edge is_zero fact_is_zero
add_edge s source edge =
    if is_zero edge.support_id || fact_is_zero edge.fact_id
    then (s, false)
    else if is_some (lookup edge.support_id s.edges)
    then (s, false)
    else (link_edge s source edge, true)

unfoldable pub count_for_fact : Store → FactId → ℕ
unfolding lookup
count_for_fact s id = length (ids_of id s.by_fact)

-- What the removal loops share: the edge is deleted, counted and reported.
abbrev pub drop_edge : Text → EdgeRecord → Store → Store
drop_edge id r s = record s {
  edges = delete id s.edges;
  counters = record s.counters { support_edges_removed = s.counters.support_edges_removed + 1 };
  events = s.events ++ support_removed r.edge ∷ [];
}

-- The loop of `removeSource`, over the sorted identifiers of the source.
unfoldable pub remove_ids : List Text → Store → Store × List FactId
unfolding lookup delete unlink
remove_ids [] s = (s, [])
remove_ids (id ∷ ids) s = elim (lookup id s.edges) [
  | none ↦ remove_ids ids s
  | some r ↦
      let s' : Store = record (drop_edge id r s) { by_fact = unlink r.edge.fact_id id s.by_fact } in
      let rest = remove_ids ids s' in (rest.0, r.edge.fact_id ∷ rest.1)
]

unfoldable pub remove_source : Store → SourceKey → Store × List FactId
unfolding lookup delete remove_ids
remove_source s source = elim (ids_of source s.by_source) [
  | [] ↦ (s, [])
  | id ∷ ids ↦
      let r = remove_ids (sort_texts (id ∷ ids)) s in
      (record r.0 { by_source = delete source r.0.by_source }, r.1)
]

-- The loop of `purgeReceivedLogicalSupport`, over the sorted identifiers of the fact.
unfoldable pub purge_ids : List Text → Store → Store
unfolding lookup delete unlink
purge_ids [] s = s
purge_ids (id ∷ ids) s = elim (lookup id s.edges) [
  | none ↦ purge_ids ids s
  | some r ↦
      purge_ids ids (record (drop_edge id r s) { by_source = unlink r.source id s.by_source })
]

unfoldable pub purge_received : Store → FactId → Store
unfolding lookup delete purge_ids
purge_received s fact = elim (ids_of fact s.by_fact) [
  | [] ↦ s
  | id ∷ ids ↦
      let s' = purge_ids (sort_texts (id ∷ ids)) s in record s' { by_fact = delete fact s'.by_fact }
]

-- `clear`: the edges and the current counts go, the totals stay.
unfoldable pub clear_supports : Store → Store
clear_supports s = record s {
  edges = [];
  by_source = [];
  by_fact = [];
  counters = record s.counters {
    current_logical_facts = 0;
    current_stated_and_logical_facts = 0;
    current_support_edges = 0;
  };
}
