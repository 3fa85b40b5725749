-- ===== src/OpenTable/DemandSupport.antt =====
-- backchainDemandSupportTable of internal/engine/backchain_demand_support_table.go, and its key and
-- bucket types of backchain_demand_support.go. A nil table answers as an empty one.
use gess.Prelude.{
  if◌then◌else◌, Bool, ◌&&◌, true, ◌≡◌, ◌↔◌, List, ℕ, Option, some, Eq, ◌==◌, nat_eq, list_eq,
  list_beq_iff, length, leb, arith,
}
use gess.OpenTable.Capacity.{slot_capacity}
use gess.OpenTable.Table
use gess.OpenTable.Table.{Table}
use gess.OpenTable.Probe
use gess.OpenTable.Hash.{hash_start, hash_add, hash_add_string}

-- The template key is the list of its bytes.
pub record SupportKey : Type 0 where
  pub template_key : List ℕ
  pub support_hash : ℕ
  pub slot_hash : ℕ
  pub support_count : ℕ
  pub slot_count : ℕ

abbrev pub support_key_beq : SupportKey → SupportKey → Bool
support_key_beq a b =
    ((a.template_key == b.template_key) && (a.support_hash == b.support_hash))
    && ((a.slot_hash == b.slot_hash)
        && ((a.support_count == b.support_count) && (a.slot_count == b.slot_count)))

pub support_key_beq_iff : (a b : SupportKey) → (support_key_beq a b ≡ true) ↔ (a ≡ b)
support_key_beq_iff a b = ground (arith, list_beq_iff a.template_key b.template_key)

instance abbrev pub support_key_eq : Eq SupportKey
support_key_eq = record { beq = support_key_beq; beq_iff = support_key_beq_iff }

-- `backchainDemandSupportIDBucket`; an identifier is a number.
pub record SupportIdBucket : Type 0 where
  pub first : ℕ
  pub second : ℕ
  pub overflow : List ℕ

unfoldable pub hash_support_key : SupportKey → ℕ
hash_support_key key =
    let a = hash_add_string hash_start key.template_key in
    let b = hash_add a key.support_hash in
    let c = hash_add b key.slot_hash in
    let d = hash_add c key.support_count in hash_add d key.slot_count

abbrev pub DemandSupportTable : Type 0
DemandSupportTable = Table SupportKey SupportIdBucket

unfoldable pub find : DemandSupportTable → SupportKey → Option (Option ℕ)
find t key = Probe.find hash_support_key t.entries key

unfoldable pub find_insert : DemandSupportTable → SupportKey → Option (ℕ × Bool)
find_insert t key = Probe.find_insert hash_support_key t.entries key

unfoldable pub is_empty : DemandSupportTable → Bool
is_empty t = Table.is_empty t

unfoldable pub get : DemandSupportTable → SupportKey → Option (Option SupportIdBucket)
get t key = Table.get hash_support_key t key

unfoldable pub set : SupportKey → SupportIdBucket → DemandSupportTable → Option DemandSupportTable
set key bucket t = Table.set hash_support_key 2 key bucket t

unfoldable pub delete : DemandSupportTable → SupportKey → Option DemandSupportTable
delete t key = Table.delete hash_support_key t key

unfoldable pub rehash : ℕ → DemandSupportTable → Option DemandSupportTable
rehash capacity t = Table.rehash hash_support_key capacity t

unfoldable pub clear : DemandSupportTable → DemandSupportTable
clear t = Table.clear t

unfoldable pub reserve : ℕ → DemandSupportTable → Option DemandSupportTable
reserve capacity t =
    if leb capacity 0
    then some t
    else if leb (slot_capacity capacity) (length t.entries)
    then some t
    else rehash (slot_capacity capacity) t
