-- ===== src/OpenTable/Slots.antt =====
-- The slots of an open-addressing table: `t.entries[i]`, `t.entries[i] = e`, and what they hold.
use gess.Prelude.{
  if◌then◌else◌, Bool, true, false, ◌≡◌, refl, ap, sym, ◌∙◌, inl, inr, List, [], ◌∷◌, ℕ, zero, suc,
  ◌+◌, ◌≤◌, ◌<◌, some, Eq, ◌==◌, ==_refl, nat_eq, Bool-cases, length, arith,
}
use gess.Prelude.Assoc.{Assoc, lookup}

-- An entry with its `state` byte: Empty, Full (with the key and the bucket), or Deleted.
pub data Slot {ℓ κ} (K : Type ℓ) (V : Type κ) : Type (ℓ ⊔ κ) where
  vacant : Slot K V
  full : K → V → Slot K V
  deleted : Slot K V

module _ {ℓ κ} {K : Type ℓ} {V : Type κ} where
  -- `entries[index]`; the operations only read indexes below the length.
  abbrev pub at : List (Slot K V) → ℕ → Slot K V
  at [] i = vacant
  at (x ∷ xs) zero = x
  at (x ∷ xs) (suc i) = at xs i

  -- `entries[index] = slot`.
  abbrev pub set_at : List (Slot K V) → ℕ → Slot K V → List (Slot K V)
  set_at [] i slot = []
  set_at (x ∷ xs) zero slot = slot ∷ xs
  set_at (x ∷ xs) (suc i) slot = x ∷ set_at xs i slot

  -- `make([]entry, n)`.
  abbrev pub blank : ℕ → List (Slot K V)
  blank zero = []
  blank (suc n) = vacant ∷ blank n

  abbrev pub is_vacant : Slot K V → Bool
  is_vacant vacant = true
  is_vacant (full k v) = false
  is_vacant deleted = false

  abbrev pub is_full : Slot K V → Bool
  is_full vacant = false
  is_full (full k v) = true
  is_full deleted = false

  -- The pairs that the full slots hold, in the order of the slots.
  abbrev pub items : List (Slot K V) → Assoc K V
  items [] = []
  items (vacant ∷ xs) = items xs
  items (full k v ∷ xs) = (k, v) ∷ items xs
  items (deleted ∷ xs) = items xs

  -- How many slots are not vacant, and how many are full.
  abbrev pub occupied : List (Slot K V) → ℕ
  occupied [] = 0
  occupied (x ∷ xs) = if is_vacant x then occupied xs else suc (occupied xs)

  abbrev pub filled : List (Slot K V) → ℕ
  filled [] = 0
  filled (x ∷ xs) = if is_full x then suc (filled xs) else filled xs

  pub length-set_at :
      (xs : List (Slot K V)) (i : ℕ) (slot : Slot K V) → length (set_at xs i slot) ≡ length xs
  length-set_at [] i slot = refl
  length-set_at (x ∷ xs) zero slot = refl
  length-set_at (x ∷ xs) (suc i) slot = omega (arith, length-set_at xs i slot)

  pub at-set_at :
      (xs : List (Slot K V)) (i j : ℕ) (slot : Slot K V)
      → i < length xs
      → at (set_at xs i slot) j ≡ (if i == j then slot else at xs j)
  at-set_at [] i j slot low = ground arith
  at-set_at (x ∷ xs) zero zero slot low = refl
  at-set_at (x ∷ xs) zero (suc j) slot low = ground arith
  at-set_at (x ∷ xs) (suc i) zero slot low = ground arith
  at-set_at (x ∷ xs) (suc i) (suc j) slot low = ground (arith, at-set_at xs i j slot)

  pub at-blank : (n i : ℕ) → at (blank n) i ≡ vacant
  at-blank zero i = refl
  at-blank (suc n) zero = refl
  at-blank (suc n) (suc i) = at-blank n i

  pub items-blank : (n : ℕ) → items (blank n) ≡ []
  items-blank zero = refl
  items-blank (suc n) = items-blank n

  pub length-items : (xs : List (Slot K V)) → length (items xs) ≡ filled xs
  length-items [] = refl
  length-items (vacant ∷ xs) = length-items xs
  length-items (full k v ∷ xs) = omega (arith, length-items xs)
  length-items (deleted ∷ xs) = length-items xs

  pub filled≤occupied : (xs : List (Slot K V)) → filled xs ≤ occupied xs
  filled≤occupied [] = omega arith
  filled≤occupied (vacant ∷ xs) = filled≤occupied xs
  filled≤occupied (full k v ∷ xs) = omega (arith, filled≤occupied xs)
  filled≤occupied (deleted ∷ xs) = omega (arith, filled≤occupied xs)

  -- What an assignment does to the two counts.
  pub occupied-set_at :
      (xs : List (Slot K V)) (i : ℕ) (slot : Slot K V)
      → i < length xs
      → occupied (set_at xs i slot) + (if is_vacant (at xs i) then 0 else 1)
        ≡ occupied xs + (if is_vacant slot then 0 else 1)
  occupied-set_at [] i slot low = omega arith
  occupied-set_at (x ∷ xs) zero slot low = ground arith
  occupied-set_at (x ∷ xs) (suc i) slot low = ground (arith, occupied-set_at xs i slot)

  pub filled-set_at :
      (xs : List (Slot K V)) (i : ℕ) (slot : Slot K V)
      → i < length xs
      → filled (set_at xs i slot) + (if is_full (at xs i) then 1 else 0)
        ≡ filled xs + (if is_full slot then 1 else 0)
  filled-set_at [] i slot low = omega arith
  filled-set_at (x ∷ xs) zero slot low = ground arith
  filled-set_at (x ∷ xs) (suc i) slot low = ground (arith, filled-set_at xs i slot)

  -- Fewer occupied slots than slots leave one vacant.
  pub vacant_index :
      (xs : List (Slot K V))
      → occupied xs < length xs
      → (i : ℕ) × (i < length xs) × (at xs i ≡ vacant)
  vacant_index [] room = ground arith
  vacant_index (vacant ∷ xs) room = (0, omega arith, refl)
  vacant_index (full k v ∷ xs) room =
      let (i, low, e) = vacant_index xs (omega arith) in (suc i, omega arith, e)
  vacant_index (deleted ∷ xs) room =
      let (i, low, e) = vacant_index xs (omega arith) in (suc i, omega arith, e)

  -- A full slot is inside the table.
  pub full-low : (xs : List (Slot K V)) (i : ℕ) (k : K) (v : V) → at xs i ≡ full k v → i < length xs
  full-low [] i k v e = cc
  full-low (x ∷ xs) zero k v e = omega arith
  full-low (x ∷ xs) (suc i) k v e = omega (arith, full-low xs i k v e)

  -- No key stands in two slots.
  abbrev pub Distinct : List (Slot K V) → Type (ℓ ⊔ κ)
  Distinct xs = (i j : ℕ) (k : K) (v w : V) → at xs i ≡ full k v → at xs j ≡ full k w → i ≡ j

  pub Distinct-tail : (x : Slot K V) (xs : List (Slot K V)) → Distinct (x ∷ xs) → Distinct xs
  Distinct-tail x xs only i j k v w f g = omega (arith, only (suc i) (suc j) k v w f g)

module _ {ℓ κ} (K : Type ℓ) (V : Type κ) where
  pub length-blank : (n : ℕ) → length (blank {K = K} {V = V} n) ≡ n
  length-blank zero = refl
  length-blank (suc n) = omega (arith, length-blank n)

  pub occupied-blank : (n : ℕ) → occupied (blank {K = K} {V = V} n) ≡ 0
  occupied-blank zero = refl
  occupied-blank (suc n) = occupied-blank n

module _ {ℓ κ} {K : Type ℓ} {V : Type κ} ⦃e : Eq K⦄ where
  pub lookup-items-some :
      (xs : List (Slot K V)) (k : K) (v : V)
      → lookup k (items xs) ≡ some v
      → (i : ℕ) × (at xs i ≡ full k v)
  unfolding lookup
  lookup-items-some [] k v h = cc
  lookup-items-some (vacant ∷ xs) k v h = let (i, f) = lookup-items-some xs k v h in (suc i, f)
  lookup-items-some (full j w ∷ xs) k v h = elim (Bool-cases (j == k)) [
    | inl same ↦ (0, ground (arith, e.beq_iff j k))
    | inr other ↦ let (i, f) = lookup-items-some xs k v (ground arith) in (suc i, f)
  ]
  lookup-items-some (deleted ∷ xs) k v h = let (i, f) = lookup-items-some xs k v h in (suc i, f)

  pub lookup-items_full :
      (xs : List (Slot K V)) (k : K) (v : V) (i : ℕ)
      → Distinct xs
      → at xs i ≡ full k v
      → lookup k (items xs) ≡ some v
  unfolding lookup
  lookup-items_full [] k v i only f = cc
  lookup-items_full (x ∷ xs) k v zero only f = ground (arith, ==_refl k)
  lookup-items_full (vacant ∷ xs) k v (suc i) only f =
      lookup-items_full xs k v i (Distinct-tail vacant xs only) f
  lookup-items_full (full j w ∷ xs) k v (suc i) only f =
      let away = only 0 (suc i) j w v in
      let rest = lookup-items_full xs k v i (Distinct-tail (full j w) xs only) f in
      ground (arith, e.beq_iff j k, away)
  lookup-items_full (deleted ∷ xs) k v (suc i) only f =
      lookup-items_full xs k v i (Distinct-tail deleted xs only) f

  -- The slot holds this key.
  abbrev pub holds : K → Slot K V → Bool
  holds key vacant = false
  holds key (full k v) = k == key
  holds key deleted = false

  pub holds-full : (key : K) (slot : Slot K V) (v : V) → slot ≡ full key v → holds key slot ≡ true
  holds-full key slot v h = ap (holds key) h ∙ ==_refl key

  lookup-skip :
      (x : Slot K V) (xs : List (Slot K V)) (key : K)
      → holds key x ≡ false
      → lookup key (items (x ∷ xs)) ≡ lookup key (items xs)
  unfolding lookup
  lookup-skip vacant xs key h = refl
  lookup-skip (full k v) xs key h = rw h refl
  lookup-skip deleted xs key h = refl

  -- A slot that never holds the key does not matter to what is found for it.
  pub lookup-set_at_other :
      (xs : List (Slot K V)) (i : ℕ) (slot : Slot K V) (key : K)
      → holds key (at xs i) ≡ false
      → holds key slot ≡ false
      → lookup key (items (set_at xs i slot)) ≡ lookup key (items xs)
  unfolding lookup
  lookup-set_at_other [] i slot key old new = refl
  lookup-set_at_other (x ∷ xs) zero slot key old new =
      lookup-skip slot xs key new ∙ sym (lookup-skip x xs key old)
  lookup-set_at_other (vacant ∷ xs) (suc i) slot key old new =
      lookup-set_at_other xs i slot key old new
  lookup-set_at_other (full k v ∷ xs) (suc i) slot key old new =
      rw (lookup-set_at_other xs i slot key old new) refl
  lookup-set_at_other (deleted ∷ xs) (suc i) slot key old new =
      lookup-set_at_other xs i slot key old new
