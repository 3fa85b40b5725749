-- ===== src/OpenTable/Tests.antt =====
-- The open-addressing tables at concrete keys: collisions, tombstones, growth, and the witnesses.
use gess.Prelude.{
  ◌≡◌, refl, List, [], ◌∷◌, ℕ, ◌%◌, ◌<◌, none, some, nat_eq, length, zero, suc, ◌+◌, true, false,
  arith,
}
use gess.Prelude.Assoc.{lookup}
use gess.OpenTable.Slots.{Slot, vacant, full, at, is_vacant, blank, at-blank}
use gess.OpenTable.Capacity.{needs_grow, shift_until, power_of_two}
use gess.OpenTable.Layout.{IsLaid, blank-IsLaid}
use gess.OpenTable.LayoutOps.{IsLaid-add}
use gess.OpenTable.Probe.{find, find_from, find_insert, find_insert_from}
use gess.OpenTable.Table
use gess.OpenTable.Table.{Table, rehash_by, refill, place, write, rehash, empty, get, set, clear}
use gess.OpenTable.Invariant.{IsTable, empty-IsTable}
use gess.OpenTable.Place.{Stored}
use gess.OpenTable.Rehash.{set-lookup}
use gess.OpenTable.DemandSupport.{support_key_eq}
use gess.Support.Keys.{fact_id_eq}
use gess.OpenTable.TokenIdentity
use gess.OpenTable.TokenIdentity.{TokenKey, RowIdBucket, token_key_eq, hash_token_key}
use gess.OpenTable.Runs.{
  Call, call, call_set, call_delete, call_rehash, calls, effects, calls-effects,
}

-- A hash with collisions.
abbrev low_hash : ℕ → ℕ
low_hash k = k % 2

abbrev busy : List (Call ℕ ℕ)
busy =
    call_set 2 20
    ∷ call_set 4 40
    ∷ call_set 6 60
    ∷ call_delete 4
    ∷ call_set 8 80
    ∷ call_set 2 21
    ∷ call_rehash 1
    ∷ call_set 1 10
    ∷ []

-- The table after these calls: 8 took the slot that the deletion of 4 had left.
abbrev busy_table : Table ℕ ℕ
busy_table = record {
  entries = full 2 21 ∷ full 8 80 ∷ full 6 60 ∷ full 1 10 ∷ vacant ∷ vacant ∷ vacant ∷ vacant ∷ [];
  touched = 0 ∷ 1 ∷ 2 ∷ 3 ∷ [];
  count = 4;
  used = 4;
}

busy_runs : calls low_hash busy empty ≡ some busy_table
unfolding calls call set needs_grow rehash_by power_of_two refill place find_insert find_insert_from
    write Table.delete find find_from rehash
busy_runs = refl

busy_get : get low_hash busy_table 6 ≡ some (some 60)
unfolding get find gess.OpenTable.Probe.find_from
busy_get = refl

busy_gone : get low_hash busy_table 4 ≡ some none
unfolding get find gess.OpenTable.Probe.find_from
busy_gone = refl

-- The sixth key makes eight slots grow to sixteen.
abbrev many : List (Call ℕ ℕ)
many = call_set 0 0 ∷ call_set 1 1 ∷ call_set 2 2 ∷ call_set 3 3 ∷ call_set 4 4 ∷ call_set 5 5 ∷ []

abbrev slots_after : List (Call ℕ ℕ) → ℕ
slots_after cs = elim (calls low_hash cs empty) [ none ↦ 0 | some t ↦ length t.entries ]

many_grow : slots_after many ≡ 16
unfolding calls call set needs_grow rehash_by power_of_two refill place find_insert find_insert_from
    write shift_until
many_grow = refl

calls-effects_example :
    (u : Table ℕ ℕ) × (calls low_hash busy empty ≡ some u)
    × IsTable low_hash u
    × ((j : ℕ) → get low_hash u j ≡ some (lookup j (effects busy [])))
calls-effects_example = calls-effects low_hash busy

set-lookup_example :
    (u : Table ℕ ℕ) × (set low_hash 2 7 70 empty ≡ some u)
    × IsTable low_hash u
    × Stored 7 70 empty u
set-lookup_example = set-lookup low_hash 0 empty 7 70 (empty-IsTable low_hash)

-- Two keys that share their first slot.
abbrev pair_slots : List (Slot ℕ ℕ)
pair_slots = full 2 20 ∷ full 4 40 ∷ vacant ∷ vacant ∷ vacant ∷ vacant ∷ vacant ∷ vacant ∷ []

abbrev one_slot : List (Slot ℕ ℕ)
one_slot = full 2 20 ∷ vacant ∷ vacant ∷ vacant ∷ vacant ∷ vacant ∷ vacant ∷ vacant ∷ []

pair_before : (c : ℕ) → c < 1 → is_vacant (at one_slot ((0 + c) % 8)) ≡ false
pair_before zero low = refl
pair_before (suc c) low = ground (arith, low)

pair_apart : (j v : ℕ) → at one_slot j ≡ full 4 v → ⊥
pair_apart zero v e = ground (arith, e)
pair_apart (suc j) v e = ground (arith, e, at-blank {K = ℕ} {V = ℕ} 7 j)

pair_slots-IsLaid : IsLaid low_hash pair_slots
pair_slots-IsLaid =
    IsLaid-add low_hash one_slot 1 4 40
      (IsLaid-add low_hash (blank 8) 0 2 20 (blank-IsLaid low_hash 8) (omega arith)
        (0, refl, λ c low. ground (arith, low))
        (λ j v e. ground (arith, e, at-blank {K = ℕ} {V = ℕ} 8 j)))
      (omega arith) (1, refl, pair_before) pair_apart

-- A tombstone of a token table keeps the way to the key behind it, and clearing recycles.
abbrev token_a : TokenKey
token_a = record { size = 1; generation = 1; identity_state = 7 }

abbrev rows_a : RowIdBucket
rows_a = record { first = 3; second = 0; rest = 5 ∷ 6 ∷ []; count = 3 }

token_recycled :
    elim (TokenIdentity.set token_a rows_a empty) [
      | none ↦ []
      | some t ↦ (TokenIdentity.clear true t).1
    ]
    ≡ (5 ∷ 6 ∷ []) ∷ []
unfolding TokenIdentity.set set needs_grow rehash_by power_of_two refill place find_insert
    find_insert_from TokenIdentity.hash_token_key gess.OpenTable.Hash.hash_add
    gess.OpenTable.Hash.hash_avalanche TokenIdentity.clear write TokenIdentity.recycled
token_recycled = refl
