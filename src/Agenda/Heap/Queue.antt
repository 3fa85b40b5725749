-- ===== src/Agenda/Heap/Queue.antt =====
-- The operations of a module queue: it gives back first what fires first, loses nothing, and every
-- entry knows its place.
use gess.Prelude.{
  ◌≡◌, refl, subst, ◌∙◌, ◌≢◌, ◌↔◌, ◌⊎◌, Bool, true, false, ◌&&◌, some, ℕ, zero, suc, ◌/◌, ◌≤◌, ◌<◌,
  nat_eq, ltb, leb, arith, Bool-cases, inl, inr,
}
use gess.Agenda.Heap.{
  Heap, swap, sift_up, sift, push, append_last, cut_last, remove_at, pop, holds, remove, fix,
}
use gess.Agenda.Heap.Order.{IsLess, IsIndexed, IsOrdered, Holds, Rearranges}
use gess.Agenda.Heap.Up.{IsOrderedBut, sift_up-IsOrdered}
use gess.Agenda.Heap.Down.{IsOrderedOver, sift_down-IsOrdered}

module _ (less : ℕ → ℕ → Bool) where
  -- A heap in good order, whose entries know their places.
  pub record IsQueue (h : Heap) : Type 0 where
    pub indexed : IsIndexed h
    pub ordered : IsOrdered less h

  -- Only the entry at `k` may be out of place.
  pub record IsLoose (k : ℕ) (h : Heap) : Type 0 where
    pub parent :
        (i : ℕ) → i ≢ k → i / 2 ≢ k → 2 ≤ i → i ≤ h.count → less (h.at i) (h.at (i / 2)) ≡ false
    pub grandparent :
        (i : ℕ) → i / 2 ≡ k → 2 ≤ k → i ≤ h.count → less (h.at i) (h.at (k / 2)) ≡ false

module _ (less : ℕ → ℕ → Bool) (laws : IsLess less) where
  rises :
      (k : ℕ) (h : Heap)
      → IsLoose less k h
      → 2 ≤ k
      → less (h.at k) (h.at (k / 2)) ≡ true
      → IsOrderedBut less laws k h
  rises k h o l e = record {
    parent = λ i n p q. ground (
      arith,
      o.parent i,
      o.grandparent i,
      laws.asym (h.at k) (h.at (k / 2)),
      laws.not_less_trans (h.at i) (h.at (k / 2)) (h.at k),
    );
    grandparent = o.grandparent;
  }

  sinks :
      (k : ℕ) (h : Heap)
      → IsLoose less k h
      → (2 ≤ k → less (h.at k) (h.at (k / 2)) ≡ false)
      → IsOrderedOver less laws k h
  sinks k h o e = record {
    parent = λ i n p q. ground (arith, o.parent i, e);
    grandparent = o.grandparent;
  }

  pub sift-IsQueue :
      (k : ℕ) (h : Heap)
      → 1 ≤ k
      → k ≤ h.count
      → IsIndexed h
      → IsLoose less k h
      → IsQueue less (sift less k h) × Rearranges h (sift less k h)
  unfolding sift
  sift-IsQueue k h l u w o = elim (Bool-cases (ltb 1 k && less (h.at k) (h.at (k / 2)))) [
    | inl up ↦
        let (ordered, r) =
          sift_up-IsOrdered less laws k k h (omega arith) l u w
            (rises k h o (ground arith) (ground arith)) in
        rw (up, sift) (record { indexed = r.indexed; ordered = ordered }, r)
    | inr down ↦
        let (ordered, r) =
          sift_down-IsOrdered less laws h.count k h (omega arith) l u w
            (sinks k h o (λ p. ground arith)) in
        rw (down, sift) (record { indexed = r.indexed; ordered = ordered }, r)
  ]

  -- No entry fires before the one at the root.
  pub root-first :
      (n i : ℕ) (h : Heap)
      → i ≤ n
      → IsOrdered less h
      → 1 ≤ i
      → i ≤ h.count
      → less (h.at i) (h.at 1) ≡ false
  root-first zero i h b o l u = absurd (omega arith)
  root-first (suc n) i h b o l u = ground (
    arith,
    laws.asym (h.at i) (h.at i),
    o i,
    root-first n (i / 2) h,
    laws.not_less_trans (h.at i) (h.at (i / 2)) (h.at 1),
    (λ (p : i < 2). let x : i ≡ 1 = omega arith in x),
  )

  module _ (a : ℕ) (h : Heap) (v : IsQueue less h) (new : h.index a ≡ 0) where
    append-IsIndexed : IsIndexed (append_last a h)
    unfolding append_last
    append-IsIndexed i p q = ground (arith, v.indexed i p)

    append-IsOrderedBut : IsOrderedBut less laws (suc h.count) (append_last a h)
    unfolding append_last
    append-IsOrderedBut = record {
      parent = λ i n p q. ground (arith, v.ordered i p);
      grandparent = λ i e p q. absurd (omega arith);
    }

    append-Holds : (x : ℕ) → Holds (append_last a h) x ↔ (Holds h x ⊎ (x ≡ a))
    unfolding append_last
    append-Holds x = ground (arith, v.indexed (h.index x))

    append-index : (x : ℕ) → x ≢ a → (append_last a h).index x ≡ h.index x
    unfolding append_last
    append-index x n = ground (arith, n)

    append-other : (x : ℕ) → ¬ Holds h x → x ≢ a → Holds h x ⊎ (x ≡ a) → ⊥
    append-other x n m (inl p) = n p
    append-other x n m (inr e) = m e

    push-new : push less true a h ≡ sift_up less (suc h.count) (suc h.count) (append_last a h)
    unfolding push
    push-new = ground arith

    -- Under a strict weak order, `push` adds a pending activation that has no place to a queue in
    -- order: the queue is in order again, holds exactly what it held and the new activation, and
    -- no other activation's place outside it is touched.
    pub push-IsQueue :
        IsQueue less (push less true a h)
        × ((x : ℕ) → Holds (push less true a h) x ↔ (Holds h x ⊎ (x ≡ a)))
        × ((x : ℕ) → ¬ Holds h x → x ≢ a → (push less true a h).index x ≡ h.index x)
    push-IsQueue =
        let h' = append_last a h in
        let (ordered, r) =
          sift_up-IsOrdered less laws (suc h.count) (suc h.count) h' (omega arith) (omega arith)
            (unfold append_last in omega arith) append-IsIndexed append-IsOrderedBut in
        rw push-new (
          record { indexed = r.indexed; ordered = ordered },
          (λ x. (λ m. (append-Holds x).0 (r.came x m), λ m. r.kept x ((append-Holds x).1 m))),
          (λ x n ne.
              r.frame x (λ m. append-other x n ne ((append-Holds x).0 m)) ∙ append-index x ne),
        )

  module _ (k : ℕ) (h : Heap) (v : IsQueue less h) (l : 1 ≤ k) (u : k ≤ h.count) where
    cut-IsIndexed : IsIndexed (cut_last k h)
    unfolding cut_last swap
    cut-IsIndexed i p q = ground (arith, v.indexed i p, v.indexed k l u, v.indexed h.count)

    cut-Holds : (x : ℕ) → Holds (cut_last k h) x ↔ (Holds h x × (x ≢ h.at k))
    unfolding cut_last swap
    cut-Holds x = (
      λ m. ground (arith, v.indexed k l u, v.indexed h.count, v.indexed (h.index x)),
      λ m. ground (arith, v.indexed k l u, v.indexed h.count, v.indexed (h.index x)),
    )

    cut-frame : (x : ℕ) → ¬ Holds h x → (cut_last k h).index x ≡ h.index x
    unfolding cut_last swap
    cut-frame x n = ground (arith, n, v.indexed k l u, v.indexed h.count)

    cut-removed : (cut_last k h).index (h.at k) ≡ 0
    unfolding cut_last swap
    cut-removed = ground arith

    cut-IsLoose : IsLoose less k (cut_last k h)
    unfolding cut_last swap
    cut-IsLoose = record {
      parent = λ i n m p q. ground (arith, v.ordered i p, n);
      grandparent = λ i e p q.
          ground
            (arith, v.ordered i, v.ordered k, laws.not_less_trans (h.at i) (h.at k) (h.at (k / 2)));
    }

  -- `a` is gone from the queue, and nothing else is.
  pub record Removes (a : ℕ) (h h' : Heap) : Type 0 where
    pub queue : IsQueue less h'
    pub held : (x : ℕ) → Holds h' x ↔ (Holds h x × (x ≢ a))
    pub cleared : h'.index a ≡ 0
    pub count : suc h'.count ≡ h.count
    pub frame : (x : ℕ) → ¬ Holds h x → h'.index x ≡ h.index x

  module _ (k : ℕ) (h : Heap) (v : IsQueue less h) (l : 1 ≤ k) (u : k ≤ h.count) where
    cut-count : suc (cut_last k h).count ≡ h.count
    unfolding cut_last swap
    cut-count = ground arith

    last-IsQueue : (cut_last k h).count < k → IsQueue less (cut_last k h)
    last-IsQueue b = record {
      indexed = cut-IsIndexed k h v l u;
      ordered = λ i p q.
          (cut-IsLoose k h v l u).parent i (λ e. absurd (omega arith)) (λ e. absurd (omega arith)) p
            q;
    }

    cut-Removes : IsQueue less (cut_last k h) → Removes (h.at k) h (cut_last k h)
    cut-Removes q = record {
      queue = q;
      held = cut-Holds k h v l u;
      cleared = cut-removed k h v l u;
      count = cut-count;
      frame = cut-frame k h v l u;
    }

    sift-Removes : k ≤ (cut_last k h).count → Removes (h.at k) h (sift less k (cut_last k h))
    sift-Removes b =
        let (q, r) =
          sift-IsQueue k (cut_last k h) l b (cut-IsIndexed k h v l u) (cut-IsLoose k h v l u) in
        let held = cut-Holds k h v l u in
        record {
          queue = q;
          held = λ x. (λ m. (held x).0 (r.came x m), λ m. r.kept x ((held x).1 m));
          cleared = r.frame (h.at k) (λ m. ((held (h.at k)).0 m).1 refl) ∙ cut-removed k h v l u;
          count = omega (arith, r.count, cut-count);
          frame = λ x n. r.frame x (λ m. n ((held x).0 m).0) ∙ cut-frame k h v l u x n;
        }

    pub remove_at-Removes : Removes (h.at k) h (remove_at less k h)
    unfolding remove_at
    remove_at-Removes = elim (Bool-cases (leb k (cut_last k h).count)) [
      | inl b ↦ rw (within, b, remove_at) (sift-Removes (ground arith))
      | inr b ↦ rw (within, b, remove_at) (cut-Removes (last-IsQueue (ground arith)))
    ]
      where
        within : (ltb 0 k && leb k h.count) ≡ true
        within = ground arith

  pub at-Holds : (i : ℕ) (h : Heap) → IsIndexed h → 1 ≤ i → i ≤ h.count → Holds h (h.at i)
  at-Holds i h w p q = rw (w i p q) (p, q, refl)

  -- Under a strict weak order, `pop` on a queue in order that is not empty returns an activation
  -- of the queue before which no other one fires, and takes exactly that one out, in order again.
  pub pop-first :
      (h : Heap)
      → IsQueue less h
      → 0 < h.count
      → (a : ℕ) × (h' : Heap) × (pop less h ≡ (h', some a))
        × Holds h a
        × ((x : ℕ) → Holds h x → less x a ≡ false)
        × Removes a h h'
  pop-first h v n = (
    h.at 1,
    remove_at less 1 h,
    unfold pop in ground arith,
    at-Holds 1 h v.indexed (omega arith) n,
    (λ x m.
        subst (λ y. less y (h.at 1) ≡ false) m.2
          (root-first (h.index x) (h.index x) h (omega arith) v.ordered m.0 m.1)),
    remove_at-Removes 1 h v (omega arith) n,
  )

  holds_iff : (h : Heap) (a : ℕ) → (holds h a ≡ true) ↔ Holds h a
  unfolding holds
  holds_iff h a = ground arith

  -- Under a strict weak order and on a queue in order, `remove` of an activation that the queue
  -- holds takes exactly that one out; of any other activation it changes nothing and says so.
  pub remove_lem :
      (a : ℕ) (h : Heap)
      → IsQueue less h
      → (Holds h a → (h' : Heap) × (remove less a h ≡ (h', true)) × Removes a h h')
        × (¬ Holds h a → remove less a h ≡ (h, false))
  remove_lem a h v = (found, missing)
    where
      found : Holds h a → (h' : Heap) × (remove less a h ≡ (h', true)) × Removes a h h'
      found m = (
        remove_at less (h.index a) h,
        unfold remove in rw ((holds_iff h a).1 m),
        subst (λ x. Removes x h (remove_at less (h.index a) h)) m.2
            (remove_at-Removes (h.index a) h v m.0 m.1),
      )

      missing : ¬ Holds h a → remove less a h ≡ (h, false)
      missing n = elim (Bool-cases (holds h a)) [
        | inl e ↦ absurd (n ((holds_iff h a).0 e))
        | inr e ↦ unfold remove in rw e
      ]

-- After the place of a held `a` in the strict weak order has changed, and no other, `fix` makes of
-- a queue in the old order a queue in the new order with the same entries.
pub fix-IsQueue :
    (less less' : ℕ → ℕ → Bool)
    → IsLess less
    → IsLess less'
    → (a : ℕ) (h : Heap) → ((x y : ℕ) → x ≢ a → y ≢ a → less x y ≡ less' x y)
    → IsQueue less h
    → Holds h a
    → IsQueue less' (fix less' a h) × Rearranges h (fix less' a h)
unfolding fix
fix-IsQueue less less' laws laws' a h agree v m =
    rw ((holds_iff less laws h a).1 m, fix)
      (sift-IsQueue less' laws' (h.index a) h m.0 m.1 v.indexed loose)
  where
    loose : IsLoose less' (h.index a) h
    loose = record {
      parent = λ i n k p q. ground (
        arith,
        v.ordered i p,
        agree (h.at i) (h.at (i / 2)),
        v.indexed i,
        v.indexed (i / 2),
        m.2,
        n,
        k,
      );
      grandparent = λ i e p q. ground (
        arith,
        v.ordered i,
        v.ordered (h.index a),
        laws.not_less_trans (h.at i) (h.at (h.index a)) (h.at (h.index a / 2)),
        agree (h.at i) (h.at (h.index a / 2)),
        v.indexed i,
        v.indexed (h.index a / 2),
      );
    }
