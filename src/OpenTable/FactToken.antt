-- ===== src/OpenTable/FactToken.antt =====
-- factTokenBucketTable of internal/engine/rete_graph_token_bucket_table.go. A nil table answers as an
-- empty one.
use gess.Prelude.{
  if◌then◌else◌, Bool, List, [], ℕ, Option, some, ◌==◌, nat_eq, list_eq, length, leb,
}
use gess.OpenTable.Capacity.{slot_capacity}
use gess.OpenTable.Table
use gess.OpenTable.Table.{Table}
use gess.OpenTable.Probe
use gess.OpenTable.Hash.{hash_add}
use gess.OpenTable.TokenIdentity.{RowIdBucket, recycled}
use gess.Support.Keys.{FactId, fact_id_eq}

unfoldable pub hash_fact_key : FactId → ℕ
hash_fact_key key = hash_add (hash_add 11400714819323198485 key.generation) key.sequence

abbrev pub FactTokenTable : Type 0
FactTokenTable = Table FactId RowIdBucket

unfoldable pub find : FactTokenTable → FactId → Option (Option ℕ)
find t key = Probe.find hash_fact_key t.entries key

unfoldable pub find_insert : FactTokenTable → FactId → Option (ℕ × Bool)
find_insert t key = Probe.find_insert hash_fact_key t.entries key

unfoldable pub is_empty : FactTokenTable → Bool
is_empty t = Table.is_empty t

unfoldable pub get : FactTokenTable → FactId → Option (Option RowIdBucket)
get t key = Table.get hash_fact_key t key

unfoldable pub set : FactId → RowIdBucket → FactTokenTable → Option FactTokenTable
set key bucket t = Table.set hash_fact_key 2 key bucket t

unfoldable pub delete : FactTokenTable → FactId → Option FactTokenTable
delete t key = Table.delete hash_fact_key t key

unfoldable pub rehash : ℕ → FactTokenTable → Option FactTokenTable
rehash capacity t = Table.rehash hash_fact_key capacity t

unfoldable pub key_count : FactTokenTable → ℕ
key_count t = Table.key_count t

-- `clear(recycle)`: also the lists that are given to a callback, in the order of the calls.
unfoldable pub clear : Bool → FactTokenTable → FactTokenTable × List (List ℕ)
clear recycle t =
    if length t.entries == 0
    then (t, [])
    else (Table.clear t, if recycle then recycled t.touched t.entries else [])

unfoldable pub reserve : ℕ → FactTokenTable → Option FactTokenTable
reserve capacity t = if leb capacity 0 then some t else rehash (slot_capacity capacity) t
