-- ===== src/Support/Affected.antt =====
-- Which facts `removeSource` reports: those whose support it has changed.
use gess.Prelude.{
  ◌≡◌, refl, ap, ◌∙◌, sym, true, false, Option, none, some, List, [], ◌∷◌, Text, ◌==◌, nat_eq,
  list_eq, list_beq_iff, arith, Bool-cases, Option-cases, inl, inr,
}
use gess.Prelude.Assoc.{lookup, contains, lookup-delete}
use gess.Support.Keys.{
  FactId, SourceKey, fact_id_eq, source_key_eq, fact_id_beq_iff, sort_texts, contains-sort,
}
use gess.Support.{EdgeRecord, Store, ids_of, unlink, drop_edge, remove_ids, remove_source}
use gess.Support.Indexes.{IsIndexed, comes_from, goes_to, List-cases}
use gess.Support.Remove.{without_source, remove_source-IsIndexed, remove_source-edges}

remove_ids-reports :
    (ids : List Text) (s : Store) (j : Text) (r : EdgeRecord)
    → contains j ids ≡ true
    → lookup j s.edges ≡ some r
    → contains r.edge.fact_id (remove_ids ids s).1 ≡ true
unfolding remove_ids contains
remove_ids-reports [] s j r m h = cc
remove_ids-reports (id ∷ ids) s j r m h = elim (Option-cases (lookup id s.edges)) [
  | inl e ↦ rw (e, remove_ids) (remove_ids-reports ids s j r (ground (arith, list_beq_iff id j)) h)
  | inr (q, e) ↦
      let s' : Store = record (drop_edge id q s) { by_fact = unlink q.edge.fact_id id s.by_fact } in
      rw (e, remove_ids)
        (ground (
          arith,
          list_beq_iff id j,
          lookup-delete id j s.edges,
          remove_ids-reports ids s' j r,
          fact_id_beq_iff q.edge.fact_id r.edge.fact_id,
        ))
]

remove_source-reports :
    (s : Store) (source : SourceKey) (j : Text) (r : EdgeRecord)
    → contains j (ids_of source s.by_source) ≡ true
    → lookup j s.edges ≡ some r
    → contains r.edge.fact_id (remove_source s source).1 ≡ true
unfolding remove_source contains
remove_source-reports s source j r m h = elim (List-cases (ids_of source s.by_source)) [
  | inl e ↦ cc (m, ap (contains j) e)
  | inr (id, rest, e) ↦
      rw (e, remove_source)
        (remove_ids-reports (sort_texts (id ∷ rest)) s j r
          (contains-sort j (id ∷ rest) ∙ sym (ap (contains j) e) ∙ m) h)
]

without-goes_to :
    (source : SourceKey) (f : FactId) (o : Option EdgeRecord)
    → ((r : EdgeRecord) → o ≡ some r → (r.source == source) ≡ true → (r.edge.fact_id == f) ≡ false)
    → goes_to (without_source source o) f ≡ goes_to o f
without-goes_to source f none h = refl
without-goes_to source f (some r) h = elim (Bool-cases (r.source == source)) [
  | inl e ↦ rw e (sym (h r refl e))
  | inr e ↦ rw e refl
]

-- Where the indexes are exact, a fact that the removal of a source does not report has the same
-- supporting edges afterwards.
pub remove_source-reported :
    (s : Store) (source : SourceKey) (f : FactId)
    → IsIndexed s
    → contains f (remove_source s source).1 ≡ false
    → (id : Text)
    → contains id (ids_of f (remove_source s source).0.by_fact) ≡ contains id (ids_of f s.by_fact)
remove_source-reported s source f v n id =
    (remove_source-IsIndexed s source v).fact id f
    ∙ ap (λ o. goes_to o f) (remove_source-edges s source v id)
    ∙ without-goes_to source f (lookup id s.edges) other
    ∙ sym (v.fact id f)
  where
    other :
        (r : EdgeRecord)
        → lookup id s.edges ≡ some r
        → (r.source == source) ≡ true
        → (r.edge.fact_id == f) ≡ false
    other r e same = elim (Bool-cases (r.edge.fact_id == f)) [
      | inr k ↦ k
      | inl k ↦ cc (
        n,
        ap (λ g. contains g (remove_source s source).1) ((fact_id_beq_iff r.edge.fact_id f).0 k),
        remove_source-reports s source id r
            (v.source id source ∙ ap (λ o. comes_from o source) e ∙ same) e,
      )
    ]
