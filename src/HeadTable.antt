-- ===== src/HeadTable.antt =====
-- The table of chain heads by token hash (`tokenIdentityHeadTable` of
-- internal/engine/rete_graph_token_bucket_table.go). A head of 0 is none, so a row identifier is
-- kept as its successor. A nil table answers as one without slots.
mod Heads
mod Laws
mod Tests
use Prim.Native.Nat.{max}
use gess.Prelude.{
  if◌then◌else◌, Bool, true, false, not, ◌&&◌, ◌==◌, nat_eq, List, [], ◌∷◌, ◌++◌, ℕ, zero, suc, ◌+◌,
  ◌-◌, ◌*◌, ◌/◌, ◌%◌, length, leb,
}
use gess.OpenTable.Capacity.{power_of_two}

pub record HeadTable : Type 0 where
  pub heads : List ℕ
  pub touched : List ℕ
  pub count : ℕ

-- `heads[i]` and `heads[i] = head`, below the length.
abbrev pub head_at : List ℕ → ℕ → ℕ
head_at [] i = 0
head_at (x ∷ xs) zero = x
head_at (x ∷ xs) (suc i) = head_at xs i

abbrev pub put_head : List ℕ → ℕ → ℕ → List ℕ
put_head [] i head = []
put_head (x ∷ xs) zero head = head ∷ xs
put_head (x ∷ xs) (suc i) head = x ∷ put_head xs i head

abbrev pub no_heads : ℕ → List ℕ
no_heads zero = []
no_heads (suc n) = 0 ∷ no_heads n

-- `graphTokenRowIDRef` and `graphTokenRowRefID`.
unfoldable pub row_ref : ℕ → ℕ
row_ref id = id + 1

unfoldable pub row_ref_id : ℕ → ℕ
row_ref_id ref = ref - 1

unfoldable pub identity_slot_capacity : ℕ → ℕ
identity_slot_capacity capacity =
    if leb capacity 0 then 0 else power_of_two (max 8 ((capacity * 10 + 8) / 9))

-- `reserve`, with whether the heads were dropped for more slots.
unfoldable pub reserve_heads : ℕ → HeadTable → HeadTable × Bool
reserve_heads capacity t =
    let slots = identity_slot_capacity capacity in
    if leb capacity 0
    then (t, false)
    else if leb slots (length t.heads)
    then (t, false)
    else (record { heads = no_heads (power_of_two (max 8 slots)); touched = []; count = 0 }, true)

unfoldable pub wipe_heads : List ℕ → List ℕ → List ℕ
wipe_heads [] heads = heads
wipe_heads (index ∷ others) heads =
    wipe_heads others (if leb (length heads) index then heads else put_head heads index 0)

unfoldable pub clear_heads : HeadTable → HeadTable
clear_heads t =
    if length t.heads == 0
    then t
    else record { heads = wipe_heads t.touched t.heads; touched = []; count = 0 }

unfoldable pub head_count : HeadTable → ℕ
head_count t = t.count

-- `slot`: the mask of a power of two.
unfoldable pub head_slot : HeadTable → ℕ → ℕ
head_slot t hash = hash % length t.heads

unfoldable pub head_hash : HeadTable → ℕ → ℕ
head_hash t hash = if length t.heads == 0 then 0 else head_at t.heads (head_slot t hash)

unfoldable pub set_head_hash : ℕ → ℕ → HeadTable → HeadTable
set_head_hash hash head t =
    let index = head_slot t hash in
    let old = head_at t.heads index in
    if length t.heads == 0 then t else record {
      heads = put_head t.heads index head;
      touched = if (old == 0) && not (head == 0) then t.touched ++ index ∷ [] else t.touched;
      count =
          if (old == 0) && not (head == 0)
          then t.count + 1
          else if not (old == 0) && (head == 0)
          then t.count - 1
          else t.count;
    }
