-- ===== src/Agenda/Heap/Up.antt =====
-- `siftUp` restores the order where only the entry at `k` may fire before its parent.
use gess.Prelude.{
  ◌≡◌, ◌≢◌, Bool, true, false, ℕ, zero, suc, ◌/◌, ◌≤◌, nat_eq, ltb, arith, Bool-cases, inl, inr,
}
use gess.Agenda.Heap.{Heap, swap, sift_up}
use gess.Agenda.Heap.Order.{
  IsLess, IsIndexed, IsOrdered, Rearranges, Rearranges-refl, Rearranges-trans, swap-Rearranges,
}

module _ (less : ℕ → ℕ → Bool) (laws : IsLess less) where
  pub record IsOrderedBut (k : ℕ) (h : Heap) : Type 0 where
    pub parent : (i : ℕ) → i ≢ k → 2 ≤ i → i ≤ h.count → less (h.at i) (h.at (i / 2)) ≡ false
    pub grandparent :
        (i : ℕ) → i / 2 ≡ k → 2 ≤ k → i ≤ h.count → less (h.at i) (h.at (k / 2)) ≡ false

  module _ (k : ℕ) (h : Heap) (o : IsOrderedBut k h) (l : 2 ≤ k) (u : k ≤ h.count)
      (e : less (h.at k) (h.at (k / 2)) ≡ true) where
    up-parent :
        (i : ℕ)
        → i ≢ k / 2
        → 2 ≤ i
        → i ≤ h.count
        → less ((swap k (k / 2) h).at i) ((swap k (k / 2) h).at (i / 2)) ≡ false
    unfolding swap
    up-parent i n p q = ground (
      arith,
      laws.asym (h.at k) (h.at (k / 2)),
      o.parent i,
      o.grandparent i,
      laws.not_less_trans (h.at i) (h.at (k / 2)) (h.at k),
    )

    up-grandparent :
        (i : ℕ)
        → i / 2 ≡ k / 2
        → 2 ≤ k / 2
        → i ≤ h.count
        → less ((swap k (k / 2) h).at i) ((swap k (k / 2) h).at (k / 2 / 2)) ≡ false
    unfolding swap
    up-grandparent i n p q = ground (
      arith,
      o.parent i,
      o.parent (k / 2),
      laws.not_less_trans (h.at i) (h.at (k / 2)) (h.at (k / 2 / 2)),
    )

    up-step : IsOrderedBut (k / 2) (swap k (k / 2) h)
    up-step = record {
      parent = unfold swap in up-parent;
      grandparent = unfold swap in up-grandparent;
    }

  module _ (k : ℕ) (h : Heap) (o : IsOrderedBut k h) where
    up-top : ltb 1 k ≡ false → IsOrdered less h
    up-top e i p q = ground (arith, o.parent i)

    up-done : less (h.at k) (h.at (k / 2)) ≡ false → IsOrdered less h
    up-done e i p q = ground (arith, o.parent i)

  pub sift_up-IsOrdered :
      (fuel k : ℕ) (h : Heap)
      → k ≤ fuel
      → 1 ≤ k
      → k ≤ h.count
      → IsIndexed h
      → IsOrderedBut k h
      → IsOrdered less (sift_up less fuel k h) × Rearranges h (sift_up less fuel k h)
  unfolding sift_up
  sift_up-IsOrdered zero k h f l u w o = absurd (omega arith)
  sift_up-IsOrdered (suc fuel) k h f l u w o = elim (Bool-cases (ltb 1 k)) [
    | inr top ↦ rw (top, sift_up) (up-top k h o top, Rearranges-refl h w)
    | inl below ↦ elim (Bool-cases (less (h.at k) (h.at (k / 2)))) [
      | inr fits ↦ rw (below, fits, sift_up) (up-done k h o fits, Rearranges-refl h w)
      | inl fires ↦
          let s = swap-Rearranges k (k / 2) h w l u (ground arith) (ground arith) in
          let (ordered, r) =
            sift_up-IsOrdered fuel (k / 2) (swap k (k / 2) h) (ground arith) (ground arith)
              (ground (arith, s.count)) s.indexed (up-step k h o (ground arith) u fires) in
          rw (below, fires, sift_up) (ordered, Rearranges-trans s r)
    ]
  ]
