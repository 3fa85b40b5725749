-- ===== src/Agenda/Heap/Order.antt =====
-- Heap order, places, and what a swap keeps.
use gess.Prelude.{◌≡◌, refl, Bool, true, false, ℕ, ◌/◌, ◌≤◌, nat_eq, arith}
use gess.Agenda.Heap.{Heap, swap}

-- A strict weak order: what `activationLess` has to be.
pub record IsLess {A : Type 0} (less : A → A → Bool) : Type 0 where
  pub asym : (a b : A) → less a b ≡ true → less b a ≡ false
  pub not_less_trans : (a b c : A) → less a b ≡ false → less b c ≡ false → less a c ≡ false

-- Every entry knows its place.
abbrev pub IsIndexed : Heap → Type 0
IsIndexed h = (i : ℕ) → 1 ≤ i → i ≤ h.count → h.index (h.at i) ≡ i

-- The activation `a` is in the heap.
abbrev pub Holds : Heap → ℕ → Type 0
Holds h a = (1 ≤ h.index a) × (h.index a ≤ h.count) × (h.at (h.index a) ≡ a)

-- `h'` has the entries of `h`, every entry knows its place, and nothing else is touched.
pub record Rearranges (h h' : Heap) : Type 0 where
  pub count : h'.count ≡ h.count
  pub indexed : IsIndexed h'
  pub kept : (a : ℕ) → Holds h a → Holds h' a
  pub came : (a : ℕ) → Holds h' a → Holds h a
  pub frame : (a : ℕ) → ¬ Holds h a → h'.index a ≡ h.index a

pub Rearranges-refl : (h : Heap) → IsIndexed h → Rearranges h h
Rearranges-refl h w = record {
  count = refl;
  indexed = w;
  kept = λ a m. m;
  came = λ a m. m;
  frame = λ a n. refl;
}

pub Rearranges-trans : {g h k : Heap} → Rearranges g h → Rearranges h k → Rearranges g k
Rearranges-trans {g} {h} {k} r s = record {
  count = omega (arith, r.count, s.count);
  indexed = s.indexed;
  kept = λ a m. s.kept a (r.kept a m);
  came = λ a m. r.came a (s.came a m);
  frame = λ a n. ground (arith, r.frame a n, s.frame a (λ m. n (r.came a m)));
}

module _ (left right : ℕ) (h : Heap) (w : IsIndexed h) (l : 1 ≤ left) (l' : left ≤ h.count)
    (r : 1 ≤ right) (r' : right ≤ h.count) where
  swap-IsIndexed : IsIndexed (swap left right h)
  unfolding swap
  swap-IsIndexed i p q = ground (arith, w i p q, w left l l', w right r r')

  swap-kept : (a : ℕ) → Holds h a → Holds (swap left right h) a
  unfolding swap
  swap-kept a m = ground (arith, w left l l', w right r r')

  swap-came : (a : ℕ) → Holds (swap left right h) a → Holds h a
  unfolding swap
  swap-came a m = ground (arith, w left l l', w right r r')

  swap-frame : (a : ℕ) → ¬ Holds h a → (swap left right h).index a ≡ h.index a
  unfolding swap
  swap-frame a n = ground (arith, w left l l', w right r r', n)

  pub swap-Rearranges : Rearranges h (swap left right h)
  swap-Rearranges = record {
    count = unfold swap in refl;
    indexed = swap-IsIndexed;
    kept = swap-kept;
    came = swap-came;
    frame = swap-frame;
  }

-- No entry fires before its parent.
abbrev pub IsOrdered : (ℕ → ℕ → Bool) → Heap → Type 0
IsOrdered less h = (i : ℕ) → 2 ≤ i → i ≤ h.count → less (h.at i) (h.at (i / 2)) ≡ false
