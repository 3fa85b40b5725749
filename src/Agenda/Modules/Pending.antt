-- ===== src/Agenda/Modules/Pending.antt =====
-- Looking for the first pending activation of a module, and taking it.
use gess.Prelude.{
  ◌≡◌, refl, ap, ◌∙◌, subst, Bool, true, false, Option, none, some, ℕ, zero, suc, ◌≤◌, ◌<◌, ◌==◌,
  nat_eq, ltb, Bool-cases, inl, inr, arith,
}
use gess.Agenda.Heap.{Heap, pop, remove_at}
use gess.Agenda.Heap.Order.{IsLess, Holds}
use gess.Agenda.Heap.Queue.{IsQueue, Removes, remove_at-Removes, root-first, at-Holds}
use gess.Agenda.Modules.{drop_stale, peek_pending, take_pending}

module _ (less : ℕ → ℕ → Bool) (laws : IsLess less) (pending : ℕ → Bool) where
  -- Only entries that are not pending are gone.
  pub record Drops (h h' : Heap) : Type 0 where
    pub queue : IsQueue less h'
    pub came : (x : ℕ) → Holds h' x → Holds h x
    pub kept : (x : ℕ) → Holds h x → pending x ≡ true → Holds h' x
    pub frame : (x : ℕ) → ¬ Holds h x → h'.index x ≡ h.index x

  Drops-refl : (h : Heap) → IsQueue less h → Drops h h
  Drops-refl h v = record { queue = v; came = λ x m. m; kept = λ x m p. m; frame = λ x n. refl }

  module _ (h : Heap) (v : IsQueue less h) (n : 0 < h.count) where
    pub popped : pop less h ≡ (remove_at less 1 h, some (h.at 1))
    unfolding pop
    popped = ground arith

    pub removed : Removes less laws (h.at 1) h (remove_at less 1 h)
    removed = remove_at-Removes less laws 1 h v (omega arith) n

    Drops-pop : (h' : Heap) → pending (h.at 1) ≡ false → Drops (remove_at less 1 h) h' → Drops h h'
    Drops-pop h' stale d = record {
      queue = d.queue;
      came = λ x m. ((removed.held x).0 (d.came x m)).0;
      kept = λ x m p. d.kept x ((removed.held x).1 (m, λ e. cc (stale, p, ap pending e))) p;
      frame = λ x m. d.frame x (λ k. m ((removed.held x).0 k).0) ∙ removed.frame x m;
    }

  pub drop_stale-Drops :
      (fuel : ℕ) (h : Heap)
      → h.count ≤ fuel
      → IsQueue less h
      → Drops h (drop_stale less pending fuel h)
        × (0 < (drop_stale less pending fuel h).count
            → pending ((drop_stale less pending fuel h).at 1) ≡ true)
  unfolding drop_stale
  drop_stale-Drops zero h b v = (Drops-refl h v, λ n. absurd (omega arith))
  drop_stale-Drops (suc fuel) h b v = elim (Bool-cases (ltb 0 h.count)) [
    | inr z ↦ rw (z, drop_stale) (Drops-refl h v, λ n. ground arith)
    | inl n ↦ elim (Bool-cases (pending (h.at 1))) [
      | inl p ↦ rw (n, p, drop_stale) (Drops-refl h v, λ n. p)
      | inr p ↦
          let l : 0 < h.count = ground arith in
          let (d, top) =
            drop_stale-Drops fuel (remove_at less 1 h) (omega (arith, (removed h v l).count, b))
              (removed h v l).queue in
          rw (n, p, popped h v l, drop_stale) (Drops-pop h v l _ p d, top)
    ]
  ]

  -- Only pending activations of the queue are chosen, and none of those fires before the choice.
  pub record IsChosen (h : Heap) (act : ℕ) : Type 0 where
    pub held : Holds h act
    pub is_pending : pending act ≡ true
    pub first : (x : ℕ) → Holds h x → pending x ≡ true → less x act ≡ false

  pub record IsPeeked (h : Heap) (r : Heap × Option ℕ) : Type 0 where
    pub drops : Drops h r.0
    pub chosen : (act : ℕ) → r.1 ≡ some act → IsChosen h act × Holds r.0 act
    pub nothing : r.1 ≡ none → (x : ℕ) → Holds h x → pending x ≡ false

  pub none_held : (h h' : Heap) (x : ℕ) → Drops h h' → h'.count ≡ 0 → Holds h x → pending x ≡ false
  none_held h h' x d z m = elim (Bool-cases (pending x)) [
    | inr p ↦ p
    | inl p ↦ let k = d.kept x m p in absurd (omega (arith, k.0, k.1, z))
  ]

  pub root-IsChosen :
      (h h' : Heap)
      → Drops h h'
      → 0 < h'.count
      → pending (h'.at 1) ≡ true
      → IsChosen h (h'.at 1) × Holds h' (h'.at 1)
  root-IsChosen h h' d n p =
      let top = at-Holds less laws 1 h' d.queue.indexed (omega arith) n in
      (
        record {
          held = d.came (h'.at 1) top;
          is_pending = p;
          first = λ x m q.
              let k = d.kept x m q in
              subst (λ y. less y (h'.at 1) ≡ false) k.2
                (root-first less laws (h'.index x) (h'.index x) h' (omega arith) d.queue.ordered k.0
                  k.1);
        },
        top,
      )

  -- Under a strict weak order, `peekPending` on a queue in order answers the first of its pending
  -- activations, and that there is none only where none is pending. It drops entries that are not
  -- pending and nothing else.
  pub peek_pending-IsPeeked : (h : Heap) → IsQueue less h → IsPeeked h (peek_pending less pending h)
  unfolding peek_pending
  peek_pending-IsPeeked h v =
      let (d, top) = drop_stale-Drops h.count h (omega arith) v in
      elim (Bool-cases ((drop_stale less pending h.count h).count == 0)) [
        | inl z ↦
            rw (z, peek_pending)
              (record {
                drops = d;
                chosen = λ act e. cc;
                nothing = λ e x m. none_held h _ x d (ground arith) m;
              })
        | inr z ↦
            let (c, m) = root-IsChosen h _ d (ground arith) (top (ground arith)) in
            rw (z, peek_pending)
              (record {
                drops = d;
                chosen = λ act e.
                    let same : (drop_stale less pending h.count h).at 1 ≡ act = cc e in
                    subst (λ a. IsChosen h a × Holds (drop_stale less pending h.count h) a) same
                      (c, m);
                nothing = λ e. cc;
              })
      ]

  -- The loop that takes the next activation of a module is a peek and then a pop.
  pub take_pending-pop :
      (fuel : ℕ) (h : Heap)
      → h.count ≤ fuel
      → IsQueue less h
      → take_pending less pending fuel h ≡ pop less (drop_stale less pending fuel h)
  unfolding take_pending drop_stale
  take_pending-pop zero h b v = unfold pop in ground arith
  take_pending-pop (suc fuel) h b v = elim (Bool-cases (ltb 0 h.count)) [
    | inr z ↦ unfold pop in ground arith
    | inl n ↦ elim (Bool-cases (pending (h.at 1))) [
      | inl p ↦
          rw (n, p, drop_stale)
            (rw (popped h v (ground arith), p, take_pending)
              (ap (λ q. (q.0, some (h.at 1))) (popped h v (ground arith))))
      | inr p ↦
          let l : 0 < h.count = ground arith in
          rw (n, p, drop_stale, popped h v l, take_pending)
            (rw (p, popped h v l)
              (take_pending-pop fuel (remove_at less 1 h) (omega (arith, (removed h v l).count, b))
                (removed h v l).queue))
    ]
  ]
