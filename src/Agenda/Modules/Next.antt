-- ===== src/Agenda/Modules/Next.antt =====
-- Taking the next activation of a module: `nextActivationPtrForModule` and the test before it.
use gess.Prelude.{
  ◌≡◌, ◌≢◌, refl, ap, ◌∙◌, sym, Bool, true, false, Option, none, some, ℕ, ◌<◌, ◌==◌, nat_eq,
  list_eq, ltb, Bool-cases, Option-cases, inl, inr, ◌↔◌, arith,
}
use gess.Prelude.Assoc.{lookup}
use gess.Module.{ModuleName}
use gess.Agenda.Heap.{Heap, pop, remove_at}
use gess.Agenda.Heap.Order.{IsLess, Holds}
use gess.Agenda.Heap.Queue.{IsQueue}
use gess.Agenda.Modules.{
  Agenda, ModuleQueue, heap_of, put_heap, module_key, drop_stale, peek_pending, take_pending,
  peek_for_module, next_for_module,
}
use gess.Agenda.Modules.Pending.{
  Drops, IsChosen, drop_stale-Drops, popped, removed, root-IsChosen, none_held, take_pending-pop,
}

module _ (less : ℕ → ℕ → Bool) (laws : IsLess less) where
  -- Of the pending activations exactly `act` is gone, and the queue is in order.
  pub record IsTaken (pending : ℕ → Bool) (h : Heap) (act : ℕ) (h' : Heap) : Type 0 where
    pub queue : IsQueue less h'
    pub held : (x : ℕ) → pending x ≡ true → Holds h' x ↔ (Holds h x × (x ≢ act))
    pub cleared : h'.index act ≡ 0

  taken :
      (pending : ℕ → Bool) (h d : Heap)
      → Drops less laws pending h d
      → 0 < d.count
      → IsTaken pending h (d.at 1) (remove_at less 1 d)
  taken pending h d r n =
      let t = removed less laws pending d r.queue n in
      record {
        queue = t.queue;
        held = λ x p. (
          (λ m. (r.came x ((t.held x).0 m).0, ((t.held x).0 m).1)),
          λ m. (t.held x).1 (r.kept x m.0 p, m.1),
        );
        cleared = t.cleared;
      }

  empty : (h : Heap) → h.count ≡ 0 → pop less h ≡ (h, none)
  unfolding pop
  empty h z = ground arith

  abbrev pub Takes : (ℕ → Bool) → Heap → Heap × Option ℕ → Type 0
  Takes pending h (h', none) = (x : ℕ) → Holds h x → pending x ≡ false
  Takes pending h (h', some act) = IsChosen less laws pending h act × IsTaken pending h act h'

  -- Under a strict weak order, the loop of `nextActivationPtrForModule` on a queue in order takes
  -- out the first of its pending activations and, of the pending ones, no other; it finds none
  -- only where none is pending.
  pub take_pending-Takes :
      (pending : ℕ → Bool) (h : Heap)
      → IsQueue less h
      → Takes pending h (take_pending less pending h.count h)
  take_pending-Takes pending h v =
      let (d, top) = drop_stale-Drops less laws pending h.count h (omega arith) v in
      let h' = drop_stale less pending h.count h in
      rw (take_pending-pop less laws pending h.count h (omega arith) v)
        (elim (Bool-cases (ltb 0 h'.count)) [
          | inl n ↦ rw (popped less laws pending h' d.queue (ground arith)) (
            (root-IsChosen less laws pending h h' d (ground arith) (top (ground arith))).0,
            taken pending h h' d (ground arith),
          )
          | inr z ↦
              rw (empty h' (ground arith))
                (λ x m. none_held less laws pending h h' x d (ground arith) m)
        ])

  -- A peek answers what the loop that takes an activation would take.
  peek-take :
      (pending : ℕ → Bool) (h : Heap)
      → IsQueue less h
      → (peek_pending less pending h).1 ≡ (take_pending less pending h.count h).1
  unfolding peek_pending pop
  peek-take pending h v =
      rw (take_pending-pop less laws pending h.count h (omega arith) v) (ground arith)

  peek_none : (pending : ℕ → Bool) (h : Heap) → h.count ≡ 0 → (peek_pending less pending h).1 ≡ none
  unfolding peek_pending drop_stale
  peek_none pending h z = rw (z, peek_pending) refl

  abbrev pub IsOrderly : Agenda → Type 0
  IsOrderly a =
      (m : ModuleName) (q : ModuleQueue)
      → lookup m a.module_queues ≡ some q
      → IsQueue less (heap_of a.index q)

  module _ (a : Agenda) (m : ModuleName) (q : ModuleQueue)
      (e : lookup (module_key m) a.module_queues ≡ some q) where
    peek-eq : peek_for_module less a m ≡ (
      put_heap (module_key m) (peek_pending less a.pending (heap_of a.index q)).0 a,
      (peek_pending less a.pending (heap_of a.index q)).1,
    )
    unfolding peek_for_module
    peek-eq = rw (e, peek_for_module) refl

    next-empty : (q.count == 0) ≡ true → next_for_module less a m ≡ (a, none)
    unfolding next_for_module
    next-empty z = rw (e, next_for_module) (rw z refl)

    next-choice :
        (q.count == 0) ≡ false
        → (next_for_module less a m).1 ≡ (take_pending less a.pending q.count (heap_of a.index q)).1
    unfolding next_for_module
    next-choice z = rw (e, next_for_module) (rw z refl)

  -- Under a strict weak order and in an agenda whose queues are in order,
  -- `peekActivationPtrForModule` finds the activation that `nextActivationPtrForModule` takes, and
  -- nothing where that takes nothing.
  pub peek_for_module-next :
      (a : Agenda) (m : ModuleName)
      → IsOrderly a
      → (peek_for_module less a m).1 ≡ (next_for_module less a m).1
  unfolding peek_for_module next_for_module
  peek_for_module-next a m v = elim (Option-cases (lookup (module_key m) a.module_queues)) [
    | inl e ↦ rw (e, peek_for_module, next_for_module) refl
    | inr (q, e) ↦ elim (Bool-cases (q.count == 0)) [
      | inl z ↦
          ap (λ r. r.1) (peek-eq a m q e)
          ∙ peek_none a.pending (heap_of a.index q) (ground arith)
          ∙ sym (ap (λ r. r.1) (next-empty a m q e z))
      | inr n ↦
          ap (λ r. r.1) (peek-eq a m q e)
          ∙ peek-take a.pending (heap_of a.index q) (v (module_key m) q e)
          ∙ sym (next-choice a m q e n)
    ]
  ]
