-- ===== src/Support/Indexes.antt =====
-- The two indexes hold exactly the edges, and the counters balance.
use gess.Prelude.{
  ◌≡◌, refl, ◌∙◌, if◌then◌else◌, Bool, true, false, ◌&&◌, ◌||◌, Option, none, some, List, [], ◌∷◌,
  ◌+◌, Text, ◌==◌, Eq, nat_eq, list_eq, list_beq_iff, length, arith, Bool-cases, Option-cases, inl,
  inr, ◌⊎◌,
}
use gess.Prelude.Assoc.{
  Assoc, lookup, insert, delete, contains, set_insert, set_delete, lookup-insert, lookup-delete,
  contains-insert, contains-delete, Unique, Unique-insert, length-insert_new,
}
use gess.Support.Keys.{FactId, SourceKey, fact_id_eq, source_key_eq}
use gess.Support.{
  Edge, EdgeRecord, Store, ids_of, store_set, unlink, link_edge, add_edge, fact_is_zero,
}
use gess.Module.{is_zero}

abbrev pub comes_from : Option EdgeRecord → SourceKey → Bool
comes_from none k = false
comes_from (some r) k = r.source == k

abbrev pub goes_to : Option EdgeRecord → FactId → Bool
goes_to none f = false
goes_to (some r) f = r.edge.fact_id == f

pub record IsIndexed (s : Store) : Type 0 where
  pub named : (id : Text) (r : EdgeRecord) → lookup id s.edges ≡ some r → r.edge.support_id ≡ id
  pub source :
      (id : Text) (k : SourceKey)
      → contains id (ids_of k s.by_source) ≡ comes_from (lookup id s.edges) k
  pub fact :
      (id : Text) (f : FactId) → contains id (ids_of f s.by_fact) ≡ goes_to (lookup id s.edges) f
  pub unique : Unique s.edges
  pub counted : s.counters.support_edges_added ≡ s.counters.support_edges_removed + length s.edges

pub List-cases :
    (ids : List Text) → (ids ≡ []) ⊎ ((id : Text) × (rest : List Text) × (ids ≡ id ∷ rest))
List-cases [] = inl refl
List-cases (id ∷ rest) = inr (id, rest, refl)

module _ {ℓ} {K : Type ℓ} ⦃e : Eq K⦄ where
  contains-store :
      (k f : K) (ids : List Text) (index : Assoc K (List Text)) (j : Text)
      → contains j (ids_of f (store_set k ids index))
        ≡ (if k == f then contains j ids else contains j (ids_of f index))
  unfolding store_set contains
  contains-store k f [] index j = ground (arith, lookup-delete k f index)
  contains-store k f (id ∷ ids) index j = ground (arith, lookup-insert k f (id ∷ ids) index)

  pub contains-unlink :
      (k f : K) (id : Text) (index : Assoc K (List Text)) (j : Text)
      → contains j (ids_of f (unlink k id index))
        ≡ (if (k == f) && (id == j) then false else contains j (ids_of f index))
  unfolding unlink contains
  contains-unlink k f id index j = elim (Option-cases (lookup k index)) [
    | inl n ↦ rw (n, unlink) (ground (arith, n, e.beq_iff k f))
    | inr (ids, n) ↦
        rw (n, unlink)
          (contains-store k f (set_delete id ids) index j
            ∙ ground (arith, n, e.beq_iff k f, contains-delete id j ids))
  ]

  pub contains-link :
      (k f : K) (id : Text) (index : Assoc K (List Text)) (j : Text)
      → contains j (ids_of f (insert k (set_insert id (ids_of k index)) index))
        ≡ (if (k == f) && (id == j) then true else contains j (ids_of f index))
  contains-link k f id index j = ground (
    arith,
    lookup-insert k f (set_insert id (ids_of k index)) index,
    contains-insert id j (ids_of k index),
    e.beq_iff k f,
  )

  pub contains-drop :
      (k f : K) (index : Assoc K (List Text)) (j : Text)
      → contains j (ids_of f (delete k index))
        ≡ (if k == f then false else contains j (ids_of f index))
  unfolding contains
  contains-drop k f index j = ground (arith, lookup-delete k f index, e.beq_iff k f)

  -- A key that differs from `s` is looked for the same way, whichever is compared first.
  pub other_key :
      (a s k : K) → (if a == s then false else a == k) ≡ (if s == k then false else a == k)
  other_key a s k = ground (arith, e.beq_iff a s, e.beq_iff s k, e.beq_iff a k)

abbrev new_record : SourceKey → Edge → EdgeRecord
new_record source edge = record { edge = edge; source = source }

module _ (s : Store) (source : SourceKey) (edge : Edge) (v : IsIndexed s)
    (new : lookup edge.support_id s.edges ≡ none) where
  link-IsIndexed : IsIndexed (link_edge s source edge)
  unfolding link_edge
  link-IsIndexed = record {
    named = λ id r h. ground (
      arith,
      lookup-insert edge.support_id id (new_record source edge) s.edges,
      list_beq_iff edge.support_id id,
      v.named id r,
    );
    source = λ id k. ground (
      arith,
      contains-link source k edge.support_id s.by_source id,
      lookup-insert edge.support_id id (new_record source edge) s.edges,
      list_beq_iff edge.support_id id,
      v.source id k,
      new,
    );
    fact = λ id f. ground (
      arith,
      contains-link edge.fact_id f edge.support_id s.by_fact id,
      lookup-insert edge.support_id id (new_record source edge) s.edges,
      list_beq_iff edge.support_id id,
      v.fact id f,
      new,
    );
    unique = Unique-insert edge.support_id (new_record source edge) s.edges v.unique;
    counted =
        omega (
          arith,
          v.counted,
          length-insert_new edge.support_id (new_record source edge) s.edges new,
        );
  }

  -- Reading back what was added, and any other edge.
  pub link-lookup :
      (id : Text)
      → lookup id (link_edge s source edge).edges ≡ (
          if edge.support_id == id
          then some (record { edge = edge; source = source })
          else lookup id s.edges)
  unfolding link_edge
  link-lookup id = lookup-insert edge.support_id id (new_record source edge) s.edges

-- Where the indexes are exact and the counters balance, adding an edge keeps both so, on every
-- branch.
pub add_edge-IsIndexed :
    (s : Store) (source : SourceKey) (edge : Edge)
    → IsIndexed s
    → IsIndexed (add_edge s source edge).0
unfolding add_edge
add_edge-IsIndexed s source edge v =
    elim (Bool-cases (is_zero edge.support_id || fact_is_zero edge.fact_id)) [
      | inl zero ↦ rw (zero, add_edge) v
      | inr named ↦ elim (Option-cases (lookup edge.support_id s.edges)) [
        | inr (r, old) ↦ rw (named, old, add_edge) v
        | inl new ↦ rw (named, new, add_edge) (link-IsIndexed s source edge v new)
      ]
    ]
