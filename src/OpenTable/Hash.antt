-- ===== src/OpenTable/Hash.antt =====
-- The hash functions of the tables, on 64-bit words: `^` is `bit_xor`, `>> n` is `/ 2 ^ n`, and the
-- products and sums wrap. They are the same mixing steps in backchain_demand_support.go and in
-- rete_graph_token_bucket_table.go.
use Prim.Native.Nat.{bit_xor}
use gess.Prelude.{List, [], ◌∷◌, ℕ, ◌+◌, ◌*◌, ◌/◌, ◌%◌, ◌^◌, length}

abbrev word : ℕ
word = 2 ^ 64

-- `value ^= value >> 30; value *= 0xbf58476d1ce4e5b9; ...`.
unfoldable pub hash_avalanche : ℕ → ℕ
hash_avalanche value =
    let a = (bit_xor value (value / 2 ^ 30) * 13787848793156543929) % word in
    let b = (bit_xor a (a / 2 ^ 27) * 10723151780598845931) % word in bit_xor b (b / 2 ^ 31)

unfoldable pub hash_start : ℕ
hash_start = 1469598103934665603

unfoldable pub hash_add : ℕ → ℕ → ℕ
hash_add hash value =
    hash_avalanche (bit_xor hash (hash_avalanche ((value + 11400714819323198485) % word)))

-- The loop of `backchainDemandHashAddString` over the bytes.
unfoldable pub hash_bytes : ℕ → List ℕ → ℕ
hash_bytes hash [] = hash
hash_bytes hash (byte ∷ bytes) = hash_bytes ((bit_xor hash byte * 1099511628211) % word) bytes

unfoldable pub hash_add_string : ℕ → List ℕ → ℕ
hash_add_string hash value = hash_bytes (hash_add hash (length value)) value
