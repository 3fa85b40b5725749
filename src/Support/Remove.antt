-- ===== src/Support/Remove.antt =====
-- `removeSource`: the edges of a source go, all others stay, and the indexes follow.
use gess.Prelude.{
  ◌≡◌, refl, ◌∙◌, sym, ap, if◌then◌else◌, false, Option, none, some, List, [], ◌∷◌, ◌+◌, Text, ◌==◌,
  nat_eq, list_eq, list_beq_iff, length, arith, Bool-cases, Option-cases, inl, inr,
}
use gess.Prelude.Assoc.{
  lookup, delete, contains, lookup-delete, Unique, Unique-delete, length-delete,
}
use gess.Support.Keys.{FactId, SourceKey, fact_id_eq, source_key_eq, sort_texts, contains-sort}
use gess.Support.{EdgeRecord, Store, ids_of, unlink, drop_edge, remove_ids, remove_source}
use gess.Support.Indexes.{
  IsIndexed, comes_from, goes_to, contains-unlink, contains-drop, other_key, List-cases,
}

-- What holds during the removal of a source, while its set still names removed edges.
record IsFactIndexed (s : Store) : Type 0 where
  named : (id : Text) (r : EdgeRecord) → lookup id s.edges ≡ some r → r.edge.support_id ≡ id
  fact : (id : Text) (f : FactId) → contains id (ids_of f s.by_fact) ≡ goes_to (lookup id s.edges) f
  unique : Unique s.edges
  counted : s.counters.support_edges_added ≡ s.counters.support_edges_removed + length s.edges

abbrev removed : Text → EdgeRecord → Store → Store
removed id r s = record (drop_edge id r s) { by_fact = unlink r.edge.fact_id id s.by_fact }

removed-IsFactIndexed :
    (id : Text) (r : EdgeRecord) (s : Store)
    → lookup id s.edges ≡ some r
    → IsFactIndexed s
    → IsFactIndexed (removed id r s)
removed-IsFactIndexed id r s e v = record {
  named = λ j q h. ground (arith, lookup-delete id j s.edges, v.named j q);
  fact = λ j f. ground (
    arith,
    contains-unlink r.edge.fact_id f id s.by_fact j,
    lookup-delete id j s.edges,
    list_beq_iff id j,
    v.fact j f,
    e,
  );
  unique = Unique-delete id s.edges v.unique;
  counted = omega (arith, v.counted, length-delete id r s.edges v.unique e);
}

-- What the loop has done to the store.
record HasRemoved (ids : List Text) (s t : Store) : Type 0 where
  kept : IsFactIndexed t
  edges : (j : Text) → lookup j t.edges ≡ (if contains j ids then none else lookup j s.edges)
  by_source : t.by_source ≡ s.by_source

remove_ids-HasRemoved :
    (ids : List Text) (s : Store) → IsFactIndexed s → HasRemoved ids s (remove_ids ids s).0
unfolding remove_ids contains
remove_ids-HasRemoved [] s v = record { kept = v; edges = λ j. refl; by_source = refl }
remove_ids-HasRemoved (id ∷ ids) s v = elim (Option-cases (lookup id s.edges)) [
  | inl e ↦
      let h = remove_ids-HasRemoved ids s v in
      rw (e, remove_ids)
        (record {
          kept = h.kept;
          edges = λ j. ground (arith, h.edges j, list_beq_iff id j, e);
          by_source = h.by_source;
        })
  | inr (r, e) ↦
      let h = remove_ids-HasRemoved ids (removed id r s) (removed-IsFactIndexed id r s e v) in
      rw (e, remove_ids)
        (record {
          kept = h.kept;
          edges = λ j. ground (arith, h.edges j, lookup-delete id j s.edges, list_beq_iff id j);
          by_source = h.by_source;
        })
]

-- The edges that a store has left after a source is gone.
abbrev pub without_source : SourceKey → Option EdgeRecord → Option EdgeRecord
without_source k none = none
without_source k (some r) = if r.source == k then none else some r

comes_from-without :
    (source k : SourceKey) (o : Option EdgeRecord)
    → comes_from (without_source source o) k ≡ (if source == k then false else comes_from o k)
comes_from-without source k none = elim (Bool-cases (source == k)) [
  | inl e ↦ rw e refl
  | inr e ↦ rw e refl
]
comes_from-without source k (some r) = elim (Bool-cases (r.source == source)) [
  | inl e ↦ rw e (rw (sym (other_key r.source source k), e) refl)
  | inr e ↦ rw e (rw (sym (other_key r.source source k), e) refl)
]

kept-without :
    (source : SourceKey) (o : Option EdgeRecord)
    → comes_from o source ≡ false
    → o ≡ without_source source o
kept-without source none e = refl
kept-without source (some r) e = rw e refl

module _ (s : Store) (source : SourceKey) (v : IsIndexed s) where
  abbrev loop : List Text → Store
  loop ids = (remove_ids (sort_texts ids) s).0

  loop-HasRemoved : (ids : List Text) → HasRemoved (sort_texts ids) s (loop ids)
  loop-HasRemoved ids =
      remove_ids-HasRemoved (sort_texts ids) s
        (record { named = v.named; fact = v.fact; unique = v.unique; counted = v.counted })

  edges-loop :
      (ids : List Text)
      → ids ≡ ids_of source s.by_source
      → (j : Text) → lookup j (loop ids).edges ≡ without_source source (lookup j s.edges)
  edges-loop ids e j = ground (
    arith,
    (loop-HasRemoved ids).edges j,
    contains-sort j ids,
    ap (contains j) e,
    v.source j source,
  )

  loop-source :
      (ids : List Text)
      → ids ≡ ids_of source s.by_source
      → (id : Text) (k : SourceKey)
      → contains id (ids_of k (delete source (loop ids).by_source))
        ≡ comes_from (lookup id (loop ids).edges) k
  loop-source ids e id k =
      ap (λ m. contains id (ids_of k (delete source m))) (loop-HasRemoved ids).by_source
      ∙ contains-drop source k s.by_source id
      ∙ ap (λ b. if source == k then false else b) (v.source id k)
      ∙ sym (comes_from-without source k (lookup id s.edges))
      ∙ sym (ap (λ o. comes_from o k) (edges-loop ids e id))

  loop-IsIndexed :
      (ids : List Text)
      → ids ≡ ids_of source s.by_source
      → IsIndexed (record (loop ids) { by_source = delete source (loop ids).by_source })
  loop-IsIndexed ids e =
      let h = loop-HasRemoved ids in
      record {
        named = h.kept.named;
        source = loop-source ids e;
        fact = h.kept.fact;
        unique = h.kept.unique;
        counted = h.kept.counted;
      }

-- Where the indexes are exact and the counters balance, removing a source keeps both so.
pub remove_source-IsIndexed :
    (s : Store) (source : SourceKey) → IsIndexed s → IsIndexed (remove_source s source).0
unfolding remove_source contains
remove_source-IsIndexed s source v = elim (List-cases (ids_of source s.by_source)) [
  | inl e ↦ rw (e, remove_source) v
  | inr (id, rest, e) ↦ rw (e, remove_source) (loop-IsIndexed s source v (id ∷ rest) (sym e))
]

-- Where the indexes are exact, removing a source takes away the edges that came from it and no
-- other.
pub remove_source-edges :
    (s : Store) (source : SourceKey)
    → IsIndexed s
    → (id : Text)
    → lookup id (remove_source s source).0.edges ≡ without_source source (lookup id s.edges)
unfolding remove_source contains
remove_source-edges s source v id = elim (List-cases (ids_of source s.by_source)) [
  | inl e ↦
      rw (e, remove_source)
        (kept-without source (lookup id s.edges) (sym (v.source id source) ∙ ap (contains id) e))
  | inr (i, rest, e) ↦ rw (e, remove_source) (edges-loop s source v (i ∷ rest) (sym e) id)
]
