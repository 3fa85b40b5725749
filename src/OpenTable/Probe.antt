-- ===== src/OpenTable/Probe.antt =====
-- `find` and `findInsert` of the open-addressing tables: linear probing from `hash & mask`. The
-- loops of the source have no bound of their own; here they get rounds, and `none` says that the
-- rounds did not suffice. `x & mask` is `x % len(entries)`, the length being a power of two.
use gess.Prelude.{
  if◌then◌else◌, Bool, true, false, List, ℕ, zero, suc, ◌+◌, ◌%◌, Option, none, some, Eq, ◌==◌,
  length,
}
use gess.OpenTable.Slots.{Slot, vacant, full, deleted, at}

-- `firstDeleted`, where there is one, else the index of the empty slot.
abbrev pub first_free : Option ℕ → ℕ → ℕ
first_free none index = index
first_free (some i) index = i

-- `if firstDeleted < 0 { firstDeleted = index }`.
abbrev pub note_deleted : Option ℕ → ℕ → Option ℕ
note_deleted none index = some index
note_deleted (some i) index = some i

module _ {ℓ κ} {K : Type ℓ} {V : Type κ} ⦃e : Eq K⦄ where
  -- One round of `find` at a slot: stop at an empty one or at the key, else go on.
  abbrev pub find_round : K → Slot K V → ℕ → Option (Option ℕ) → Option (Option ℕ)
  find_round key vacant index others = some none
  find_round key (full k v) index others = if k == key then some (some index) else others
  find_round key deleted index others = others

  unfoldable pub find_from : K → List (Slot K V) → ℕ → ℕ → Option (Option ℕ)
  find_from key entries index zero = none
  find_from key entries index (suc rounds) =
      find_round key (at entries index) index
        (find_from key entries ((index + 1) % length entries) rounds)

  -- `find(key)`: the index of the key, or `some none` for `0, false`.
  unfoldable pub find : (K → ℕ) → List (Slot K V) → K → Option (Option ℕ)
  find hash entries key = find_from key entries (hash key % length entries) (length entries)

  -- One round of `findInsert`, `others` being the rounds after it with the new `firstDeleted`.
  abbrev pub insert_round :
      K → Slot K V → ℕ → Option ℕ → (Option ℕ → Option (ℕ × Bool)) → Option (ℕ × Bool)
  insert_round key vacant index first_deleted others = some (first_free first_deleted index, false)
  insert_round key deleted index first_deleted others = others (note_deleted first_deleted index)
  insert_round key (full k v) index first_deleted others =
      if k == key then some (index, true) else others first_deleted

  unfoldable pub find_insert_from : K → List (Slot K V) → ℕ → Option ℕ → ℕ → Option (ℕ × Bool)
  find_insert_from key entries index first_deleted zero = none
  find_insert_from key entries index first_deleted (suc rounds) =
      insert_round key (at entries index) index first_deleted
        (λ noted. find_insert_from key entries ((index + 1) % length entries) noted rounds)

  -- `findInsert(key)`: where to write the key, and whether it stands there already.
  unfoldable pub find_insert : (K → ℕ) → List (Slot K V) → K → Option (ℕ × Bool)
  find_insert hash entries key =
      find_insert_from key entries (hash key % length entries) none (length entries)
