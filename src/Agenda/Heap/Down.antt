-- ===== src/Agenda/Heap/Down.antt =====
-- `siftDown` restores the order where only the entry at `k` may fire after one of its children.
use gess.Prelude.{
  ◌≡◌, ◌≢◌, Bool, true, false, ℕ, zero, suc, ◌+◌, ◌*◌, ◌/◌, ◌≤◌, ◌<◌, nat_eq, leb, arith,
  Bool-cases, inl, inr,
}
use gess.Agenda.Heap.{Heap, swap, first_child, sift_down}
use gess.Agenda.Heap.Order.{
  IsLess, IsIndexed, IsOrdered, Rearranges, Rearranges-refl, Rearranges-trans, swap-Rearranges,
}

module _ (less : ℕ → ℕ → Bool) (laws : IsLess less) where
  pub record IsOrderedOver (k : ℕ) (h : Heap) : Type 0 where
    pub parent : (i : ℕ) → i / 2 ≢ k → 2 ≤ i → i ≤ h.count → less (h.at i) (h.at (i / 2)) ≡ false
    pub grandparent :
        (i : ℕ) → i / 2 ≡ k → 2 ≤ k → i ≤ h.count → less (h.at i) (h.at (k / 2)) ≡ false

  module _ (k : ℕ) (h : Heap) (l : 1 ≤ k) (u : k * 2 ≤ h.count) where
    -- No child of `k` fires before its first child.
    record IsFirst (c : ℕ) : Type 0 where
      child : c / 2 ≡ k
      within : c ≤ h.count
      larger : k < c
      first : (i : ℕ) → i / 2 ≡ k → i ≤ h.count → less (h.at i) (h.at c) ≡ false

    first_child-first :
        (i : ℕ) → i / 2 ≡ k → i ≤ h.count → less (h.at i) (h.at (first_child less k h)) ≡ false
    unfolding first_child
    first_child-first i e q = ground (
      arith,
      laws.asym (h.at (k * 2 + 1)) (h.at (k * 2)),
      laws.asym (h.at i) (h.at i),
      (λ (p : i ≢ k * 2). let x : i ≡ k * 2 + 1 = omega arith in x),
    )

    first_child-IsFirst : IsFirst (first_child less k h)
    first_child-IsFirst = record {
      child = unfold first_child in ground arith;
      within = unfold first_child in ground arith;
      larger = unfold first_child in ground arith;
      first = first_child-first;
    }

    module _ (c : ℕ) (f : IsFirst c) (o : IsOrderedOver k h)
        (e : less (h.at c) (h.at k) ≡ true) where
      down-parent :
          (i : ℕ)
          → i / 2 ≢ c
          → 2 ≤ i
          → i ≤ h.count
          → less ((swap k c h).at i) ((swap k c h).at (i / 2)) ≡ false
      unfolding swap
      down-parent i n p q = ground (
        arith,
        f.child,
        f.larger,
        f.within,
        laws.asym (h.at c) (h.at k),
        f.first i,
        o.parent i,
        o.grandparent c,
      )

      down-grandparent :
          (i : ℕ)
          → i / 2 ≡ c
          → 2 ≤ c
          → i ≤ h.count
          → less ((swap k c h).at i) ((swap k c h).at (c / 2)) ≡ false
      unfolding swap
      down-grandparent i n p q = ground (arith, f.child, f.larger, f.within, o.parent i)

      down-step : IsOrderedOver c (swap k c h)
      down-step = record {
        parent = unfold swap in down-parent;
        grandparent = unfold swap in down-grandparent;
      }

    down-done :
        (c : ℕ) → IsFirst c → IsOrderedOver k h → less (h.at c) (h.at k) ≡ false → IsOrdered less h
    down-done c f o e i p q =
        ground (arith, o.parent i, f.first i, laws.not_less_trans (h.at i) (h.at c) (h.at k))

  leaf-done : (k : ℕ) (h : Heap) → IsOrderedOver k h → h.count < k * 2 → IsOrdered less h
  leaf-done k h o e i p q = ground (arith, o.parent i)

  pub sift_down-IsOrdered :
      (fuel k : ℕ) (h : Heap)
      → h.count < k + fuel
      → 1 ≤ k
      → k ≤ h.count
      → IsIndexed h
      → IsOrderedOver k h
      → IsOrdered less (sift_down less fuel k h) × Rearranges h (sift_down less fuel k h)
  unfolding sift_down
  sift_down-IsOrdered zero k h b l u w o = absurd (omega arith)
  sift_down-IsOrdered (suc fuel) k h b l u w o = elim (Bool-cases (leb (k * 2) h.count)) [
    | inr leaf ↦ rw (leaf, sift_down) (leaf-done k h o (ground arith), Rearranges-refl h w)
    | inl inner ↦
        let room : k * 2 ≤ h.count = ground arith in
        let c = first_child less k h in
        let f = first_child-IsFirst k h l room in
        elim (Bool-cases (less (h.at c) (h.at k))) [
          | inr fits ↦
              rw (inner, fits, sift_down) (down-done k h l room c f o fits, Rearranges-refl h w)
          | inl fires ↦
              let s = swap-Rearranges k c h w l u (omega (arith, f.larger)) f.within in
              let (ordered, r) =
                sift_down-IsOrdered fuel c (swap k c h) (omega (arith, f.larger, s.count))
                  (omega (arith, f.larger)) (omega (arith, f.within, s.count)) s.indexed
                  (down-step k h l room c f o fires) in
              rw (inner, fires, sift_down) (ordered, Rearranges-trans s r)
        ]
  ]
