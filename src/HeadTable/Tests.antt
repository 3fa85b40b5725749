-- ===== src/HeadTable/Tests.antt =====
-- A head table of eight slots.
use gess.Prelude.{◌≡◌, refl, nat_eq, [], true}
use gess.HeadTable.{
  HeadTable, head_hash, head_slot, set_head_hash, reserve_heads, identity_slot_capacity, no_heads,
}

abbrev eight : HeadTable
eight = record { heads = no_heads 8; touched = []; count = 0 }

-- Two hashes share a slot, and the second head replaces the first.
shared_slot : head_hash (set_head_hash 11 6 (set_head_hash 3 5 eight)) 3 ≡ 6
unfolding head_hash set_head_hash head_slot
shared_slot = refl

reserved : (reserve_heads 9 eight).1 ≡ true
unfolding reserve_heads identity_slot_capacity gess.OpenTable.Capacity.power_of_two
    gess.OpenTable.Capacity.shift_until
reserved = refl
