-- ===== src/OpenTable/DemandFact.antt =====
-- backchainDemandFactSupportTable of internal/engine/backchain_demand_support_table.go. A nil table
-- answers as an empty one.
use gess.Prelude.{if◌then◌else◌, Bool, ℕ, Option, some, nat_eq, list_eq, length, leb}
use gess.OpenTable.Capacity.{slot_capacity}
use gess.OpenTable.Table
use gess.OpenTable.Table.{Table}
use gess.OpenTable.Probe
use gess.OpenTable.Hash.{hash_start, hash_add}
use gess.OpenTable.DemandSupport.{SupportIdBucket}
use gess.Support.Keys.{FactId, fact_id_eq}

unfoldable pub hash_fact_support_key : FactId → ℕ
hash_fact_support_key key = hash_add (hash_add hash_start key.generation) key.sequence

abbrev pub DemandFactTable : Type 0
DemandFactTable = Table FactId SupportIdBucket

unfoldable pub find : DemandFactTable → FactId → Option (Option ℕ)
find t key = Probe.find hash_fact_support_key t.entries key

unfoldable pub find_insert : DemandFactTable → FactId → Option (ℕ × Bool)
find_insert t key = Probe.find_insert hash_fact_support_key t.entries key

unfoldable pub is_empty : DemandFactTable → Bool
is_empty t = Table.is_empty t

unfoldable pub get : DemandFactTable → FactId → Option (Option SupportIdBucket)
get t key = Table.get hash_fact_support_key t key

unfoldable pub set : FactId → SupportIdBucket → DemandFactTable → Option DemandFactTable
set key bucket t = Table.set hash_fact_support_key 2 key bucket t

unfoldable pub delete : DemandFactTable → FactId → Option DemandFactTable
delete t key = Table.delete hash_fact_support_key t key

unfoldable pub rehash : ℕ → DemandFactTable → Option DemandFactTable
rehash capacity t = Table.rehash hash_fact_support_key capacity t

unfoldable pub clear : DemandFactTable → DemandFactTable
clear t = Table.clear t

unfoldable pub reserve : ℕ → DemandFactTable → Option DemandFactTable
reserve capacity t =
    if leb capacity 0
    then some t
    else if leb (slot_capacity capacity) (length t.entries)
    then some t
    else rehash (slot_capacity capacity) t
