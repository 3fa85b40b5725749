-- ===== src/Support/State/Added.antt =====
-- `addLogicalSupportForPropagationEvent`: what a firing rule adds, and what an error leaves.
use gess.Prelude.{
  ◌≡◌, ◌≢◌, refl, ap, ◌∙◌, subst, true, false, none, some, List, [], ◌∷◌, ◌++◌, ℕ, ◌<◌, Text,
  nat_eq, list_eq, list_beq_iff, length, arith, Bool-cases, Option-cases, inl, inr, ◌⊎◌,
}
use gess.Prelude.Assoc.{lookup, contains}
use gess.Prelude.Result.{ok}
use gess.Module.{is_zero}
use gess.Support.{
  Edge, Store, ids_of, add_edge, link_edge, count_for_fact, SupportEvent, support_added,
}
use gess.Support.Keys.{FactId, SourceKey, fact_id_eq, fact_id_beq_iff}
use gess.Support.Indexes.{IsIndexed, goes_to, add_edge-IsIndexed, link-lookup}
use gess.Support.State.{
  WorkingFact, count_transition, update_fact_support_state, PropagationEvent, add_logical_support,
  source_from_event, logical_support_id, new_edge,
}
use gess.Support.State.Settled.{fits, is_stated, update_fact_support_state_lem}

add_edge-cases :
    (s : Store) (source : SourceKey) (edge : Edge)
    → (add_edge s source edge ≡ (s, false))
      ⊎ ((add_edge s source edge ≡ (link_edge s source edge, true))
          × (lookup edge.support_id s.edges ≡ none))
unfolding add_edge
add_edge-cases s source edge = ground arith

update-store :
    (s : Store) (f : WorkingFact)
    → ((update_fact_support_state s f).0 ≡ s)
      ⊎ ((update_fact_support_state s f).0 ≡ count_transition s)
unfolding update_fact_support_state
update-store s f = ground arith

-- A state transition and a report change no edge.
update-IsIndexed :
    (s : Store) (f : WorkingFact) (es : List SupportEvent)
    → IsIndexed s
    → IsIndexed (record (update_fact_support_state s f).0 { events = es })
unfolding count_transition
update-IsIndexed s f es v = elim (update-store s f) [
  | inl e ↦ rw e (record {
    named = v.named;
    source = v.source;
    fact = v.fact;
    unique = v.unique;
    counted = v.counted;
  })
  | inr e ↦ rw e (record {
    named = v.named;
    source = v.source;
    fact = v.fact;
    unique = v.unique;
    counted = v.counted;
  })
]

update-by_fact :
    (s : Store) (f : WorkingFact) → (update_fact_support_state s f).0.by_fact ≡ s.by_fact
unfolding update_fact_support_state count_transition
update-by_fact s f = ground arith

positive : (j : Text) (ids : List Text) → contains j ids ≡ true → 0 < length ids
unfolding contains
positive j [] e = cc
positive j (i ∷ ids) e = omega arith

module _ (digits : ℕ → Text) (event : PropagationEvent) (supporting_facts : List FactId) where
  abbrev pub edge_of : SourceKey → WorkingFact → Edge
  edge_of source f = new_edge event (logical_support_id digits source f.id) f.id supporting_facts

  -- Support is added: the new edge is stored under its source, and the fact's state fits it.
  pub record HasSupport (s t : Store) (f g : WorkingFact) (source : SourceKey) : Type 0 where
    pub from_event : source_from_event event ≡ some source
    pub fresh : lookup (logical_support_id digits source f.id) s.edges ≡ none
    pub stored :
        lookup (logical_support_id digits source f.id) t.edges
        ≡ some (record { edge = edge_of source f; source = source })
    pub supported : 0 < count_for_fact t g.id
    pub fitting : fits g.support_state (count_for_fact t g.id) ≡ true
    pub stated : is_stated g.support_state ≡ is_stated f.support_state

  module _ (s : Store) (f : WorkingFact) (source : SourceKey) (v : IsIndexed s)
      (e : source_from_event event ≡ some source)
      (new : add_edge s source (edge_of source f) ≡ (link_edge s source (edge_of source f), true))
      (fresh : lookup (logical_support_id digits source f.id) s.edges ≡ none) where
    abbrev linked : Store
    linked = link_edge s source (edge_of source f)

    abbrev changed : Store × WorkingFact
    changed = update_fact_support_state linked f

    linked-IsIndexed : IsIndexed linked
    linked-IsIndexed =
        subst IsIndexed (ap (λ r. r.0) new) (add_edge-IsIndexed s source (edge_of source f) v)

    in_store :
        lookup (logical_support_id digits source f.id) linked.edges
        ≡ some (record { edge = edge_of source f; source = source })
    in_store =
        link-lookup s source (edge_of source f) v fresh (logical_support_id digits source f.id)
        ∙ rw
            ((list_beq_iff (logical_support_id digits source f.id)
                (logical_support_id digits source f.id)).1
              refl)
            refl

    in_index : contains (logical_support_id digits source f.id) (ids_of f.id linked.by_fact) ≡ true
    in_index =
        linked-IsIndexed.fact (logical_support_id digits source f.id) f.id
        ∙ ap (λ o. goes_to o f.id) in_store
        ∙ (fact_id_beq_iff f.id f.id).1 refl

    changed-HasSupport :
        (es : List SupportEvent)
        → HasSupport s (record changed.0 { events = es }) f changed.1 source
    unfolding count_for_fact
    changed-HasSupport es =
        let (fit, stated, id, edges, counted) = update_fact_support_state_lem linked f in
        record {
          from_event = e;
          fresh = fresh;
          stored = ap (lookup (logical_support_id digits source f.id)) edges ∙ in_store;
          supported = rw (id, update-by_fact linked f) (positive _ _ in_index);
          fitting = fit;
          stated = stated;
        }

    added-eq :
        is_zero (logical_support_id digits source f.id) ≡ false
        → add_logical_support digits s f event supporting_facts ≡ (
          (
            record changed.0 { events = changed.0.events ++ support_added (edge_of source f) ∷ [] },
            changed.1,
          ),
          ok true,
        )
    unfolding add_logical_support
    added-eq z = ground arith

  -- Where the indexes are exact, adding the support that a rule gives to a fact keeps them so.
  -- Where it says that it has added support, the edge was new and is stored under its source, and
  -- the fact has a state that fits; otherwise, errors included, the store and the fact are as they
  -- were.
  pub add_logical_support-IsIndexed :
      (s : Store) (f : WorkingFact)
      → IsIndexed s
      → let ((t, g), r) = add_logical_support digits s f event supporting_facts in
        IsIndexed t
        × (r ≡ ok true → (source : SourceKey) × HasSupport s t f g source)
        × (r ≢ ok true → (t ≡ s) × (g ≡ f))
  unfolding add_logical_support
  add_logical_support-IsIndexed s f v = elim (Option-cases (source_from_event event)) [
    | inl e ↦ ground (arith, v)
    | inr (source, e) ↦ elim (Bool-cases (is_zero (logical_support_id digits source f.id))) [
      | inl z ↦ ground (arith, v)
      | inr z ↦ elim (add_edge-cases s source (edge_of source f)) [
        | inl old ↦ ground (arith, v)
        | inr (new, fresh) ↦ rw (added-eq s f source v e new fresh z) (
          update-IsIndexed (link_edge s source (edge_of source f)) f _
              (linked-IsIndexed s f source v e new fresh),
          (λ x. (source, changed-HasSupport s f source v e new fresh _)),
          λ x. absurd (x refl),
        )
      ]
    ]
  ]
