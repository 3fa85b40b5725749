-- ===== src/HeadTable/Laws.antt =====
-- The count and the touched slots stay in step with the heads, and writes are read back.
use Prim.Native.Nat.{max}
use gess.Prelude.{
  if◌then◌else◌, Bool-cases, true, false, not, ◌&&◌, ◌≡◌, refl, ◌∙◌, inl, inr, ◌==◌, nat_eq, List,
  [], ◌∷◌, ◌++◌, ℕ, ◌%◌, ◌<◌, length, leb, arith,
}
use native.Mathlib.Nat.{mod-lt}
use gess.Prelude.Assoc.{contains, contains-snoc}
use gess.HeadTable.{
  HeadTable, head_at, put_head, no_heads, wipe_heads, head_slot, head_hash, set_head_hash,
  clear_heads, reserve_heads, identity_slot_capacity,
}
use gess.OpenTable.Capacity.{power_of_two}
use gess.HeadTable.Heads.{
  live, length-put_head, head_at-put_head, live-put_head, live-no_heads, head_at-no_heads,
  head_at-wipe_heads, live-zero, length-wipe_heads,
}

pub record IsHeadTable (t : HeadTable) : Type 0 where
  pub count_lem : t.count ≡ live t.heads
  pub marks : (i : ℕ) → (head_at t.heads i == 0) ≡ false → contains i t.touched ≡ true

slot-low :
    (t : HeadTable) (hash : ℕ) → (length t.heads == 0) ≡ false → head_slot t hash < length t.heads
unfolding head_slot
slot-low t hash slots = mod-lt hash {m = length t.heads} (ground (arith, slots))

marks-put :
    (heads touched : List ℕ) (index head i : ℕ)
    → index < length heads
    → ((j : ℕ) → (head_at heads j == 0) ≡ false → contains j touched ≡ true)
    → (head_at (put_head heads index head) i == 0) ≡ false
    → contains i
        (if (head_at heads index == 0) && not (head == 0) then touched ++ index ∷ [] else touched)
      ≡ true
marks-put heads touched index head i low marks seen = ground (
  arith,
  seen,
  head_at-put_head heads index i head low,
  marks i,
  marks index,
  contains-snoc index i touched,
)

read_back :
    (heads : List ℕ) (index head other : ℕ)
    → index < length heads
    → (length heads == 0) ≡ false
    → (if length (put_head heads index head) == 0
        then 0
        else head_at (put_head heads index head) (other % length (put_head heads index head)))
      ≡ (if index == other % length heads then head else head_at heads (other % length heads))
read_back heads index head other low slots =
    rw (length-put_head heads index head, slots)
      (head_at-put_head heads index (other % length heads) head low)

-- A written head keeps the table in step, and is read back for every hash with its slot; the other
-- hashes have the heads they had. A table without slots takes no head.
pub set_head_hash_lem :
    (t : HeadTable) (hash head : ℕ)
    → IsHeadTable t
    → IsHeadTable (set_head_hash hash head t)
      × ((other : ℕ)
          → head_hash (set_head_hash hash head t) other ≡ (
              if length t.heads == 0
              then 0
              else if head_slot t hash == head_slot t other
              then head
              else head_hash t other))
unfolding set_head_hash head_hash head_slot
set_head_hash_lem t hash head h = elim (Bool-cases (length t.heads == 0)) [
  | inl bare ↦ rw bare (h, λ other. rw (head_hash, bare) refl)
  | inr slots ↦
      let low = slot-low t hash slots in
      rw slots (
        record {
          count_lem =
              ground (arith, h.count_lem, live-put_head t.heads (head_slot t hash) head low);
          marks = λ i seen. marks-put t.heads t.touched (head_slot t hash) head i low h.marks seen;
        },
        λ other. read_back t.heads (head_slot t hash) head other low slots,
      )
]

pub no_heads-IsHeadTable :
    (n : ℕ) → IsHeadTable (record { heads = no_heads n; touched = []; count = 0 })
no_heads-IsHeadTable n = record {
  count_lem = omega (arith, live-no_heads n);
  marks = λ i seen. ground (arith, seen, head_at-no_heads n i);
}

wiped : (t : HeadTable) → IsHeadTable t → (i : ℕ) → head_at (wipe_heads t.touched t.heads) i ≡ 0
wiped t h i = head_at-wipe_heads t.touched t.heads i ∙ ground (arith, h.marks i)

no_slot : (heads : List ℕ) → length heads ≡ 0 → (i : ℕ) → head_at heads i ≡ 0
no_slot [] e i = refl
no_slot (x ∷ heads) e i = omega (arith, e)

-- A cleared table is in step and has no head, although only touched slots are emptied.
pub clear_heads_lem :
    (t : HeadTable)
    → IsHeadTable t
    → IsHeadTable (clear_heads t)
      × ((i : ℕ) → head_at (clear_heads t).heads i ≡ 0)
      × (length (clear_heads t).heads ≡ length t.heads)
unfolding clear_heads
clear_heads_lem t h = elim (Bool-cases (length t.heads == 0)) [
  | inl bare ↦ rw bare (h, no_slot t.heads (ground (arith, bare)), refl)
  | inr slots ↦
      let gone = wiped t h in
      rw slots (
        record {
          count_lem = omega (arith, live-zero (wipe_heads t.touched t.heads) gone);
          marks = λ i seen. ground (arith, seen, gone i);
        },
        gone,
        length-wipe_heads t.touched t.heads,
      )
]

-- `reserve` keeps the table as it is or drops every head.
pub reserve_heads_lem :
    (capacity : ℕ) (t : HeadTable) → IsHeadTable t → IsHeadTable (reserve_heads capacity t).0
unfolding reserve_heads
reserve_heads_lem capacity t h = elim (Bool-cases (leb capacity 0)) [
  | inl small ↦ rw small h
  | inr large ↦ elim (Bool-cases (leb (identity_slot_capacity capacity) (length t.heads))) [
    | inl fits ↦ rw (large, fits) h
    | inr grows ↦
        rw (large, grows)
          (no_heads-IsHeadTable (power_of_two (max 8 (identity_slot_capacity capacity))))
  ]
]
