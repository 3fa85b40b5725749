-- ===== src/Agenda/Heap.antt =====
-- `agendaModuleQueue` of internal/engine/agenda.go: a binary heap of pointers to activations, where
-- each activation knows its own place. Pointers are numbers. `at i` is `q.heap[i]` for
-- 1 ≤ i ≤ `count` (slot 0 holds nil), and `index` is the field `heapIndex` of the activations.
pub mod Order
pub mod Up
pub mod Down
pub mod Queue
use gess.Prelude.{
  if◌then◌else◌, Bool, true, false, not, ◌&&◌, ◌||◌, Option, none, some, ℕ, zero, suc, ◌+◌, ◌-◌,
  ◌*◌, ◌/◌, ◌==◌, nat_eq, ltb, leb,
}

pub record Heap : Type 0 where
  pub count : ℕ
  pub at : ℕ → ℕ
  pub index : ℕ → ℕ

-- `f[k] = v`.
abbrev pub put : (ℕ → ℕ) → ℕ → ℕ → ℕ → ℕ
put f k v i = if i == k then v else f i

unfoldable pub new_heap : (ℕ → ℕ) → Heap
new_heap index = record { count = 0; at = λ i. 0; index = index }

unfoldable pub swap : ℕ → ℕ → Heap → Heap
swap left right h = record h {
  at = put (put h.at left (h.at right)) right (h.at left);
  index = put (put h.index (h.at right) left) (h.at left) right;
}

-- The new last entry, before it rises.
unfoldable pub append_last : ℕ → Heap → Heap
append_last a h = record {
  count = suc h.count;
  at = put h.at (suc h.count) a;
  index = put h.index a (suc h.count);
}

-- `removeAt` cuts off the last slot after the swap, and clears the place of what it removes.
unfoldable pub cut_last : ℕ → Heap → Heap
unfolding swap
cut_last k h =
    let h' = if k == h.count then h else swap k h.count h in
    record h' { count = h.count - 1; index = put h'.index (h.at k) 0 }

-- Whether `remove` and `fix` find the activation in this queue.
unfoldable pub holds : Heap → ℕ → Bool
holds h a = (ltb 0 (h.index a) && leb (h.index a) h.count) && (h.at (h.index a) == a)

-- The loop of `reset` over the slots from 1 to `n`.
unfoldable pub clear_places : ℕ → (ℕ → ℕ) → (ℕ → ℕ) → ℕ → ℕ
clear_places zero at index = index
clear_places (suc n) at index = put (clear_places n at index) (at (suc n)) 0

-- `reset`; what the slots hold behind the end is not read any more.
unfoldable pub reset : Heap → Heap
unfolding clear_places
reset h = record h { count = 0; index = clear_places h.count h.at h.index }

-- The order in which activations fire: `a.activationLess`.
module _ (less : ℕ → ℕ → Bool) where
  -- `index` halves in each round, so `index` rounds are enough.
  unfoldable pub sift_up : ℕ → ℕ → Heap → Heap
  unfolding swap
  sift_up zero k h = h
  sift_up (suc fuel) k h = elim (ltb 1 k) [
    | false ↦ h
    | true ↦ elim (less (h.at k) (h.at (k / 2))) [
      | false ↦ h
      | true ↦ sift_up fuel (k / 2) (swap k (k / 2) h)
    ]
  ]

  -- The child of `k` that fires first.
  unfoldable pub first_child : ℕ → Heap → ℕ
  first_child k h =
      if leb (k * 2 + 1) h.count && less (h.at (k * 2 + 1)) (h.at (k * 2)) then k * 2 + 1 else k * 2

  -- `index` doubles in each round, so `count` rounds are enough.
  unfoldable pub sift_down : ℕ → ℕ → Heap → Heap
  unfolding swap first_child
  sift_down zero k h = h
  sift_down (suc fuel) k h = elim (leb (k * 2) h.count) [
    | false ↦ h
    | true ↦ elim (less (h.at (first_child k h)) (h.at k)) [
      | false ↦ h
      | true ↦ sift_down fuel (first_child k h) (swap k (first_child k h) h)
    ]
  ]

  -- The choice that `removeAt` and `fix` make after the entry at `k` has changed.
  unfoldable pub sift : ℕ → Heap → Heap
  unfolding sift_up sift_down
  sift k h =
      if ltb 1 k && less (h.at k) (h.at (k / 2)) then sift_up k k h else sift_down h.count k h

  -- `push` takes an activation that is pending and stands in no queue.
  unfoldable pub push : Bool → ℕ → Heap → Heap
  unfolding append_last sift_up
  push pending a h =
      if not pending || ltb 0 (h.index a)
      then h
      else sift_up (suc h.count) (suc h.count) (append_last a h)

  unfoldable pub remove_at : ℕ → Heap → Heap
  unfolding cut_last sift
  remove_at k h =
      if ltb 0 k && leb k h.count
      then (let h' = cut_last k h in if leb k h'.count then sift k h' else h')
      else h

  unfoldable pub pop : Heap → Heap × Option ℕ
  unfolding remove_at
  pop h = if h.count == 0 then (h, none) else (remove_at 1 h, some (h.at 1))

  unfoldable pub remove : ℕ → Heap → Heap × Bool
  unfolding holds remove_at
  remove a h = if holds h a then (remove_at (h.index a) h, true) else (h, false)

  unfoldable pub fix : ℕ → Heap → Heap
  unfolding holds sift
  fix a h = if holds h a then sift (h.index a) h else h
