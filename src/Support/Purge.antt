-- ===== src/Support/Purge.antt =====
-- `purgeReceivedLogicalSupport`: the edges to a fact go, all others stay, and the indexes follow.
use gess.Prelude.{
  ◌≡◌, refl, ◌∙◌, sym, ap, if◌then◌else◌, false, Option, none, some, List, [], ◌∷◌, ◌+◌, Text, ◌==◌,
  nat_eq, list_eq, list_beq_iff, length, arith, Bool-cases, Option-cases, inl, inr,
}
use gess.Prelude.Assoc.{
  lookup, delete, contains, lookup-delete, Unique, Unique-delete, length-delete,
}
use gess.Support.Keys.{FactId, SourceKey, fact_id_eq, source_key_eq, sort_texts, contains-sort}
use gess.Support.{EdgeRecord, Store, ids_of, unlink, drop_edge, purge_ids, purge_received}
use gess.Support.Indexes.{
  IsIndexed, comes_from, goes_to, contains-unlink, contains-drop, other_key, List-cases,
}

-- What holds during the purge of a fact, while its set still names removed edges.
record IsSourceIndexed (s : Store) : Type 0 where
  named : (id : Text) (r : EdgeRecord) → lookup id s.edges ≡ some r → r.edge.support_id ≡ id
  source :
      (id : Text) (f : SourceKey)
      → contains id (ids_of f s.by_source) ≡ comes_from (lookup id s.edges) f
  unique : Unique s.edges
  counted : s.counters.support_edges_added ≡ s.counters.support_edges_removed + length s.edges

abbrev removed : Text → EdgeRecord → Store → Store
removed id r s = record (drop_edge id r s) { by_source = unlink r.source id s.by_source }

removed-IsSourceIndexed :
    (id : Text) (r : EdgeRecord) (s : Store)
    → lookup id s.edges ≡ some r
    → IsSourceIndexed s
    → IsSourceIndexed (removed id r s)
removed-IsSourceIndexed id r s e v = record {
  named = λ j q h. ground (arith, lookup-delete id j s.edges, v.named j q);
  source = λ j f. ground (
    arith,
    contains-unlink r.source f id s.by_source j,
    lookup-delete id j s.edges,
    list_beq_iff id j,
    v.source j f,
    e,
  );
  unique = Unique-delete id s.edges v.unique;
  counted = omega (arith, v.counted, length-delete id r s.edges v.unique e);
}

-- What the loop has done to the store.
record HasRemoved (ids : List Text) (s t : Store) : Type 0 where
  kept : IsSourceIndexed t
  edges : (j : Text) → lookup j t.edges ≡ (if contains j ids then none else lookup j s.edges)
  by_fact : t.by_fact ≡ s.by_fact

purge_ids-HasRemoved :
    (ids : List Text) (s : Store) → IsSourceIndexed s → HasRemoved ids s (purge_ids ids s)
unfolding purge_ids contains
purge_ids-HasRemoved [] s v = record { kept = v; edges = λ j. refl; by_fact = refl }
purge_ids-HasRemoved (id ∷ ids) s v = elim (Option-cases (lookup id s.edges)) [
  | inl e ↦
      let h = purge_ids-HasRemoved ids s v in
      rw (e, purge_ids)
        (record {
          kept = h.kept;
          edges = λ j. ground (arith, h.edges j, list_beq_iff id j, e);
          by_fact = h.by_fact;
        })
  | inr (r, e) ↦
      let h = purge_ids-HasRemoved ids (removed id r s) (removed-IsSourceIndexed id r s e v) in
      rw (e, purge_ids)
        (record {
          kept = h.kept;
          edges = λ j. ground (arith, h.edges j, lookup-delete id j s.edges, list_beq_iff id j);
          by_fact = h.by_fact;
        })
]

-- The edges that a store has left after a fact is gone.
abbrev pub without_fact : FactId → Option EdgeRecord → Option EdgeRecord
without_fact k none = none
without_fact k (some r) = if r.edge.fact_id == k then none else some r

goes_to-without :
    (gone k : FactId) (o : Option EdgeRecord)
    → goes_to (without_fact gone o) k ≡ (if gone == k then false else goes_to o k)
goes_to-without gone k none = elim (Bool-cases (gone == k)) [
  | inl e ↦ rw e refl
  | inr e ↦ rw e refl
]
goes_to-without gone k (some r) = elim (Bool-cases (r.edge.fact_id == gone)) [
  | inl e ↦ rw e (rw (sym (other_key r.edge.fact_id gone k), e) refl)
  | inr e ↦ rw e (rw (sym (other_key r.edge.fact_id gone k), e) refl)
]

kept-without :
    (gone : FactId) (o : Option EdgeRecord) → goes_to o gone ≡ false → o ≡ without_fact gone o
kept-without gone none e = refl
kept-without gone (some r) e = rw e refl

module _ (s : Store) (gone : FactId) (v : IsIndexed s) where
  abbrev loop : List Text → Store
  loop ids = (purge_ids (sort_texts ids) s)

  loop-HasRemoved : (ids : List Text) → HasRemoved (sort_texts ids) s (loop ids)
  loop-HasRemoved ids =
      purge_ids-HasRemoved (sort_texts ids) s
        (record { named = v.named; source = v.source; unique = v.unique; counted = v.counted })

  edges-loop :
      (ids : List Text)
      → ids ≡ ids_of gone s.by_fact
      → (j : Text) → lookup j (loop ids).edges ≡ without_fact gone (lookup j s.edges)
  edges-loop ids e j =
      ground (
        arith,
        (loop-HasRemoved ids).edges j,
        contains-sort j ids,
        ap (contains j) e,
        v.fact j gone,
      )

  loop-fact :
      (ids : List Text)
      → ids ≡ ids_of gone s.by_fact
      → (id : Text) (k : FactId)
      → contains id (ids_of k (delete gone (loop ids).by_fact))
        ≡ goes_to (lookup id (loop ids).edges) k
  loop-fact ids e id k =
      ap (λ m. contains id (ids_of k (delete gone m))) (loop-HasRemoved ids).by_fact
      ∙ contains-drop gone k s.by_fact id
      ∙ ap (λ b. if gone == k then false else b) (v.fact id k)
      ∙ sym (goes_to-without gone k (lookup id s.edges))
      ∙ sym (ap (λ o. goes_to o k) (edges-loop ids e id))

  loop-IsIndexed :
      (ids : List Text)
      → ids ≡ ids_of gone s.by_fact
      → IsIndexed (record (loop ids) { by_fact = delete gone (loop ids).by_fact })
  loop-IsIndexed ids e =
      let h = loop-HasRemoved ids in
      record {
        named = h.kept.named;
        source = h.kept.source;
        fact = loop-fact ids e;
        unique = h.kept.unique;
        counted = h.kept.counted;
      }

-- Where the indexes are exact and the counters balance, purging the support that a fact received
-- keeps both so.
pub purge_received-IsIndexed :
    (s : Store) (gone : FactId) → IsIndexed s → IsIndexed (purge_received s gone)
unfolding purge_received contains
purge_received-IsIndexed s gone v = elim (List-cases (ids_of gone s.by_fact)) [
  | inl e ↦ rw (e, purge_received) v
  | inr (id, rest, e) ↦ rw (e, purge_received) (loop-IsIndexed s gone v (id ∷ rest) (sym e))
]

-- Where the indexes are exact, purging the support that a fact received takes away the edges to it
-- and no other.
pub purge_received-edges :
    (s : Store) (gone : FactId)
    → IsIndexed s
    → (id : Text) → lookup id (purge_received s gone).edges ≡ without_fact gone (lookup id s.edges)
unfolding purge_received contains
purge_received-edges s gone v id = elim (List-cases (ids_of gone s.by_fact)) [
  | inl e ↦
      rw (e, purge_received)
        (kept-without gone (lookup id s.edges) (sym (v.fact id gone) ∙ ap (contains id) e))
  | inr (i, rest, e) ↦ rw (e, purge_received) (edges-loop s gone v (i ∷ rest) (sym e) id)
]
