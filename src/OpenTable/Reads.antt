-- ===== src/OpenTable/Reads.antt =====
-- `get` and `delete` return, and do to the abstract map what a map's do.
use gess.Prelude.{
  if◌then◌else◌, Bool-cases, true, false, ◌≡◌, refl, sym, ap, ◌∙◌, inl, inr, [], ◌∷◌, ℕ, ◌-◌, ◌<◌,
  none, some, Eq, ◌==◌, nat_eq, length, arith,
}
use gess.Prelude.Assoc.{Assoc, lookup, contains}
use gess.OpenTable.Slots.{
  at, set_at, full, deleted, items, filled≤occupied, length-items, length-set_at, occupied-set_at,
  filled-set_at, at-set_at, full-low, lookup-set_at_other, is_vacant, is_full, holds,
}
use gess.OpenTable.Layout.{find-lookup}
use gess.OpenTable.LayoutOps.{IsLaid-mark, lookup-mark}
use gess.OpenTable.Table.{Table, get, delete}
use gess.OpenTable.Invariant.{IsTable, IsTable-room, contents}

no_zero : (n : ℕ) → 0 < n → (n == 0) ≡ false
no_zero n low = ground arith

module _ {ℓ κ} {K : Type ℓ} {V : Type κ} where
  pub no_contents : (hash : K → ℕ) (t : Table K V) → IsTable hash t → t.count ≡ 0 → contents t ≡ []
  no_contents hash t h zero_count =
      go (contents t) (omega (arith, length-items t.entries, h.count_lem))
    where
      go : (m : Assoc K V) → length m ≡ 0 → m ≡ []
      go [] e = refl
      go (x ∷ m) e = ground arith

  pub some_slots :
      (hash : K → ℕ) (t : Table K V)
      → IsTable hash t
      → (t.count == 0) ≡ false
      → 0 < length t.entries
  some_slots hash t h counted =
      ground (arith, filled≤occupied t.entries, h.count_lem, h.used_lem, h.load)

module _ {ℓ κ} {K : Type ℓ} {V : Type κ} ⦃e : Eq K⦄ where
  pub get-lookup :
      (hash : K → ℕ) (t : Table K V) (key : K)
      → IsTable hash t
      → get hash t key ≡ some (lookup key (contents t))
  unfolding get lookup
  get-lookup hash t key h = elim (Bool-cases (t.count == 0)) [
    | inl bare ↦ rw (bare, no_contents hash t h (ground arith)) refl
    | inr counted ↦
        let low = some_slots hash t h counted in
        elim (find-lookup hash t.entries key h.laid (IsTable-room hash t h low)) [
          | inl (e, gone) ↦ rw (counted, no_zero (length t.entries) low, e, gone) refl
          | inr (i, v, e, here, known) ↦
              rw (counted, no_zero (length t.entries) low, e, here, known) refl
        ]
  ]

  -- What a deletion leaves.
  abbrev Gone : K → Table K V → Table K V → Type (ℓ ⊔ κ)
  Gone key t u =
      (j : K) → lookup j (contents u) ≡ (if key == j then none else lookup j (contents t))

  Gone-same : (t : Table K V) (key : K) → lookup key (contents t) ≡ none → Gone key t t
  Gone-same t key gone j = ground (arith, gone, e.beq_iff key j)

  Gone-mark :
      (hash : K → ℕ) (t : Table K V) (key : K) (i : ℕ) (v : V)
      → IsTable hash t
      → at t.entries i ≡ full key v
      → (j : K)
      → lookup j (items (set_at t.entries i deleted))
        ≡ (if key == j then none else lookup j (contents t))
  Gone-mark hash t key i v h here j = elim (Bool-cases (key == j)) [
    | inl same ↦
        rw (same, sym ((e.beq_iff key j).0 same)) (lookup-mark t.entries i key v h.laid.only here)
    | inr other ↦
        rw other (lookup-set_at_other t.entries i deleted j (ap (holds j) here ∙ other) refl)
  ]

  abbrev marked_table : Table K V → ℕ → Table K V
  marked_table t i = record t { entries = set_at t.entries i deleted; count = t.count - 1 }

  marks_mark :
      (hash : K → ℕ) (t : Table K V) (i m : ℕ)
      → IsTable hash t
      → i < length t.entries
      → is_vacant (at t.entries i) ≡ false
      → is_vacant (at (set_at t.entries i deleted) m) ≡ false
      → contains m t.touched ≡ true
  marks_mark hash t i m h low solid seen = elim (Bool-cases (is_vacant (at t.entries m))) [
    | inl free ↦ ground (arith, seen, free, solid, at-set_at t.entries i m deleted low)
    | inr other ↦ h.marks m other
  ]

  marked_table-IsTable :
      (hash : K → ℕ) (t : Table K V) (i : ℕ) (key : K) (v : V)
      → IsTable hash t
      → at t.entries i ≡ full key v
      → IsTable hash (marked_table t i)
  marked_table-IsTable hash t i key v h here =
      let low = full-low t.entries i key v here in
      let solid = ap is_vacant here in
      let counted = ap is_full here in
      record {
        sized = rw (length-set_at t.entries i deleted) h.sized;
        load = omega (arith, h.load, length-set_at t.entries i deleted);
        used_lem = ground (arith, h.used_lem, solid, occupied-set_at t.entries i deleted low);
        count_lem = ground (arith, h.count_lem, counted, filled-set_at t.entries i deleted low);
        laid = IsLaid-mark hash t.entries i h.laid low;
        marks = λ m seen. marks_mark hash t i m h low solid seen;
      }

  pub delete-lookup :
      (hash : K → ℕ) (t : Table K V) (key : K)
      → IsTable hash t
      → (u : Table K V) × (delete hash t key ≡ some u) × IsTable hash u × Gone key t u
  unfolding delete lookup
  delete-lookup hash t key h = elim (Bool-cases (t.count == 0)) [
    | inl bare ↦ (
      t,
      rw bare refl,
      h,
      Gone-same t key (ap (lookup key) (no_contents hash t h (ground arith))),
    )
    | inr counted ↦
        let low = some_slots hash t h counted in
        elim (find-lookup hash t.entries key h.laid (IsTable-room hash t h low)) [
          | inl (e, gone) ↦ (t, rw (counted, e) refl, h, Gone-same t key gone)
          | inr (i, v, e, here, known) ↦ (
            record t { entries = set_at t.entries i deleted; count = t.count - 1 },
            rw (counted, e) refl,
            marked_table-IsTable hash t i key v h here,
            Gone-mark hash t key i v h here,
          )
        ]
  ]
