-- ===== src/OpenTable/TokenIdentity.antt =====
-- graphTokenIdentityBucketTable of internal/engine/rete_graph_token_bucket_table.go, and its key and
-- bucket types of rete_graph_beta.go. A nil table answers as an empty one.
use gess.Prelude.{
  if◌then◌else◌, Bool, ◌&&◌, true, ◌≡◌, ◌↔◌, List, [], ◌∷◌, ◌++◌, ℕ, Option, some, Eq, ◌==◌, nat_eq,
  list_eq, length, leb, arith,
}
use gess.OpenTable.Capacity.{slot_capacity}
use gess.OpenTable.Table
use gess.OpenTable.Table.{Table}
use gess.OpenTable.Probe
use gess.OpenTable.Slots.{Slot, vacant, full, deleted, at, set_at}
use gess.OpenTable.Hash.{hash_add}

pub record TokenKey : Type 0 where
  pub size : ℕ
  pub generation : ℕ
  pub identity_state : ℕ

abbrev pub token_key_beq : TokenKey → TokenKey → Bool
token_key_beq a b =
    (a.size == b.size) && ((a.generation == b.generation) && (a.identity_state == b.identity_state))

pub token_key_beq_iff : (a b : TokenKey) → (token_key_beq a b ≡ true) ↔ (a ≡ b)
token_key_beq_iff a b = ground arith

instance abbrev pub token_key_eq : Eq TokenKey
token_key_eq = record { beq = token_key_beq; beq_iff = token_key_beq_iff }

-- `graphTokenRowIDBucket`; a row identifier is a number.
pub record RowIdBucket : Type 0 where
  pub first : ℕ
  pub second : ℕ
  pub rest : List ℕ
  pub count : ℕ

-- What the loop of `clear` gives to `recycle`.
abbrev pub rest_of {ℓ} : {K : Type ℓ} → Slot K RowIdBucket → List (List ℕ)
rest_of vacant = []
rest_of (full k bucket) = bucket.rest ∷ []
rest_of deleted = []

unfoldable pub recycled {ℓ} : {K : Type ℓ} → List ℕ → List (Slot K RowIdBucket) → List (List ℕ)
recycled [] entries = []
recycled (index ∷ others) entries =
    if leb (length entries) index
    then recycled others entries
    else rest_of (at entries index) ++ recycled others (set_at entries index vacant)

unfoldable pub hash_token_key : TokenKey → ℕ
hash_token_key key =
    let a = hash_add 11400714819323198485 key.size in
    hash_add (hash_add a key.generation) key.identity_state

abbrev pub TokenIdentityTable : Type 0
TokenIdentityTable = Table TokenKey RowIdBucket

unfoldable pub find : TokenIdentityTable → TokenKey → Option (Option ℕ)
find t key = Probe.find hash_token_key t.entries key

unfoldable pub find_insert : TokenIdentityTable → TokenKey → Option (ℕ × Bool)
find_insert t key = Probe.find_insert hash_token_key t.entries key

unfoldable pub is_empty : TokenIdentityTable → Bool
is_empty t = Table.is_empty t

unfoldable pub get : TokenIdentityTable → TokenKey → Option (Option RowIdBucket)
get t key = Table.get hash_token_key t key

unfoldable pub set : TokenKey → RowIdBucket → TokenIdentityTable → Option TokenIdentityTable
set key bucket t = Table.set hash_token_key 2 key bucket t

unfoldable pub delete : TokenIdentityTable → TokenKey → Option TokenIdentityTable
delete t key = Table.delete hash_token_key t key

unfoldable pub rehash : ℕ → TokenIdentityTable → Option TokenIdentityTable
rehash capacity t = Table.rehash hash_token_key capacity t

unfoldable pub key_count : TokenIdentityTable → ℕ
key_count t = Table.key_count t

-- `clear(recycle)`: also the lists that are given to a callback, in the order of the calls.
unfoldable pub clear : Bool → TokenIdentityTable → TokenIdentityTable × List (List ℕ)
clear recycle t =
    if length t.entries == 0
    then (t, [])
    else (Table.clear t, if recycle then recycled t.touched t.entries else [])

unfoldable pub reserve : ℕ → TokenIdentityTable → Option TokenIdentityTable
reserve capacity t = if leb capacity 0 then some t else rehash (slot_capacity capacity) t
