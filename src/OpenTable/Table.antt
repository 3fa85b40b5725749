-- ===== src/OpenTable/Table.antt =====
-- The operations of the open-addressing tables, for any key, bucket and hash. `none` in the place of
-- a result says that a loop of the source would not have ended within the rounds given.
use Prim.Native.Nat.{max}
use gess.Prelude.{
  if◌then◌else◌, Bool, true, false, ◌||◌, ◌&&◌, List, [], ◌∷◌, ◌++◌, ℕ, zero, suc, ◌+◌, ◌-◌, ◌*◌,
  Option, none, some, Eq, ◌==◌, nat_eq, length, leb,
}
use gess.OpenTable.Slots.{Slot, vacant, full, deleted, at, set_at, blank, is_vacant}
use gess.OpenTable.Probe.{find, find_insert}
use gess.OpenTable.Capacity.{power_of_two, needs_grow}

pub record Table {ℓ κ} (K : Type ℓ) (V : Type κ) : Type (ℓ ⊔ κ) where
  pub entries : List (Slot K V)
  pub touched : List ℕ
  pub count : ℕ
  pub used : ℕ

module _ {ℓ κ} {K : Type ℓ} {V : Type κ} where
  -- The zero value of the struct.
  abbrev pub empty : Table K V
  empty = record { entries = []; touched = []; count = 0; used = 0 }

  -- What `rehash` starts the new slots with.
  abbrev pub with_slots : ℕ → Table K V
  with_slots n = record { entries = blank n; touched = []; count = 0; used = 0 }

  unfoldable pub is_empty : Table K V → Bool
  is_empty t = t.count == 0

  unfoldable pub key_count : Table K V → ℕ
  key_count t = t.count

  -- `entries[index].bucket = bucket`.
  abbrev pub with_bucket : Slot K V → V → Slot K V
  with_bucket vacant bucket = vacant
  with_bucket (full k v) bucket = full k bucket
  with_bucket deleted bucket = deleted

  abbrev pub bucket_of : Slot K V → Option V
  bucket_of vacant = none
  bucket_of (full k v) = some v
  bucket_of deleted = none

  -- `set` after `findInsert` has returned the index and whether the key stands there.
  unfoldable pub write : K → V → Table K V → ℕ × Bool → Table K V
  write key bucket t (index, true) = record t {
    entries = set_at t.entries index (with_bucket (at t.entries index) bucket);
  }
  write key bucket t (index, false) =
      let first = is_vacant (at t.entries index) in
      record {
        entries = set_at t.entries index (full key bucket);
        touched = if first then t.touched ++ index ∷ [] else t.touched;
        count = t.count + 1;
        used = if first then t.used + 1 else t.used;
      }

  -- The loop of `rehash` over the old entries, each full one put in by `set`.
  unfoldable pub refill :
      (K → V → Table K V → Option (Table K V)) → List (Slot K V) → Table K V → Option (Table K V)
  refill put [] t = some t
  refill put (vacant ∷ old) t = refill put old t
  refill put (full k v ∷ old) t = elim (put k v t) [ none ↦ none | some u ↦ refill put old u ]
  refill put (deleted ∷ old) t = refill put old t

  unfoldable pub rehash_by :
      (K → V → Table K V → Option (Table K V)) → ℕ → Table K V → Option (Table K V)
  rehash_by put capacity t =
      let slots = power_of_two (max 8 capacity) in
      if leb slots (length t.entries) && (t.used == t.count)
      then some t
      else refill put t.entries (with_slots slots)

  -- `clear`: only the slots that were touched are emptied.
  unfoldable pub wipe : List ℕ → List (Slot K V) → List (Slot K V)
  wipe [] entries = entries
  wipe (index ∷ others) entries =
      wipe others (if leb (length entries) index then entries else set_at entries index vacant)

  unfoldable pub clear : Table K V → Table K V
  clear t =
      if length t.entries == 0
      then t
      else record { entries = wipe t.touched t.entries; touched = []; count = 0; used = 0 }

module _ {ℓ κ} {K : Type ℓ} {V : Type κ} ⦃e : Eq K⦄ (hash : K → ℕ) where
  unfoldable pub get : Table K V → K → Option (Option V)
  get t key =
      if (t.count == 0) || (length t.entries == 0)
      then some none
      else elim (find hash t.entries key) [
        | none ↦ none
        | some none ↦ some none
        | some (some index) ↦ some (bucket_of (at t.entries index))
      ]

  -- The part of `set` below the growth test.
  unfoldable pub place : K → V → Table K V → Option (Table K V)
  place key bucket t = elim (find_insert hash t.entries key) [
    | none ↦ none
    | some found ↦ some (write key bucket t found)
  ]

  -- `set`, which calls `rehash`, which calls `set`: the first argument bounds how deep.
  unfoldable pub set : ℕ → K → V → Table K V → Option (Table K V)
  set zero key bucket t = none
  set (suc depth) key bucket t =
      if needs_grow (t.used + 1) (length t.entries)
      then elim (rehash_by (set depth) (max 8 (length t.entries * 2)) t) [
        | none ↦ none
        | some u ↦ place key bucket u
      ]
      else place key bucket t

  unfoldable pub rehash : ℕ → Table K V → Option (Table K V)
  rehash capacity t = rehash_by (set 2) capacity t

  unfoldable pub delete : Table K V → K → Option (Table K V)
  delete t key = if t.count == 0 then some t else elim (find hash t.entries key) [
    | none ↦ none
    | some none ↦ some t
    | some (some index) ↦
        some (record t { entries = set_at t.entries index deleted; count = t.count - 1 })
  ]
