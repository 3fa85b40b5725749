-- ===== src/OpenTable/Invariant.antt =====
-- The well-formedness of an open-addressing table, and its abstract view.
use gess.Prelude.{true, false, ◌≡◌, refl, ◌⊎◌, inl, inr, ℕ, ◌*◌, ◌<◌, ◌≤◌, nat_eq, length, arith}
use gess.Prelude.Assoc.{Assoc, contains}
use gess.OpenTable.Slots.{
  at, blank, is_vacant, items, occupied, filled, length-blank, at-blank, occupied-blank,
  filled≤occupied,
}
use gess.OpenTable.Capacity.{PowerOfTwo}
use gess.OpenTable.Layout.{IsLaid, blank-IsLaid}
use gess.OpenTable.Table.{Table, empty, with_slots}

-- No slots yet, or a power of two of them, at least eight.
abbrev pub Sized : ℕ → Type 0
Sized n = (n ≡ 0) ⊎ (PowerOfTwo n × (8 ≤ n))

module _ {ℓ κ} {K : Type ℓ} {V : Type κ} where
  -- The map that the table stands for: the pairs in its full slots.
  abbrev pub contents : Table K V → Assoc K V
  contents t = items t.entries

  pub record IsTable (hash : K → ℕ) (t : Table K V) : Type (ℓ ⊔ κ) where
    pub sized : Sized (length t.entries)
    pub load : t.used * 4 ≤ length t.entries * 3
    pub used_lem : t.used ≡ occupied t.entries
    pub count_lem : t.count ≡ filled t.entries
    pub laid : IsLaid hash t.entries
    pub marks : (i : ℕ) → is_vacant (at t.entries i) ≡ false → contains i t.touched ≡ true

  -- A table with slots has an empty one, so that every probe ends.
  pub IsTable-room :
      (hash : K → ℕ) (t : Table K V)
      → IsTable hash t
      → 0 < length t.entries
      → occupied t.entries < length t.entries
  IsTable-room hash t h low = omega (arith, h.load, h.used_lem)

  pub with_slots-IsTable :
      (hash : K → ℕ) (n : ℕ) → PowerOfTwo n → 8 ≤ n → IsTable hash (with_slots {K = K} {V = V} n)
  with_slots-IsTable hash n two low = record {
    sized = inr (rw (length-blank K V n) (two, low));
    load = omega arith;
    used_lem = omega (arith, occupied-blank K V n);
    count_lem = omega (arith, filled≤occupied (blank {K = K} {V = V} n), occupied-blank K V n);
    laid = blank-IsLaid hash n;
    marks = λ i h. ground (arith, h, at-blank {K = K} {V = V} n i);
  }

  pub empty-IsTable : (hash : K → ℕ) → IsTable hash (empty {K = K} {V = V})
  empty-IsTable hash = record {
    sized = inl refl;
    load = omega arith;
    used_lem = refl;
    count_lem = refl;
    laid = blank-IsLaid hash 0;
    marks = λ i h. ground (arith, h);
  }
