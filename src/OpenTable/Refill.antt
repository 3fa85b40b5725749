-- ===== src/OpenTable/Refill.antt =====
-- The loop of `rehash` moves every pair of the old slots, for any `set` that stores.
use gess.Prelude.{◌≡◌, refl, List, [], ◌∷◌, ℕ, suc, Option, none, some, Eq, arith}
use gess.Prelude.Assoc.{lookup}
use gess.OpenTable.Slots.{Slot, vacant, full, deleted, items, filled, Distinct, Distinct-tail}
use gess.OpenTable.Layout.{absent_lookup}
use gess.OpenTable.Table.{Table, refill}
use gess.OpenTable.Invariant.{IsTable, contents}
use gess.OpenTable.Place.{Stored}

-- The first of two results that is one.
abbrev pub or_else {ℓ} : {A : Type ℓ} → Option A → Option A → Option A
or_else none y = y
or_else (some x) y = some x

module _ {ℓ κ} {K : Type ℓ} {V : Type κ} ⦃same : Eq K⦄ (hash : K → ℕ) where
  -- A `set` that stores wherever there is room for one more pair, `Room m` being room for `m`.
  abbrev pub Stores :
      (ℕ → Table K V → Type 0) → (K → V → Table K V → Option (Table K V)) → Type (ℓ ⊔ κ)
  Stores Room put =
      (m : ℕ) (t : Table K V) (k : K) (v : V)
      → IsTable hash t
      → Room (suc m) t
      → (u : Table K V) × (put k v t ≡ some u) × IsTable hash u × Stored k v t u × Room m u

  pub refill-Stores :
      (Room : ℕ → Table K V → Type 0) (put : K → V → Table K V → Option (Table K V))
      (old : List (Slot K V)) (t : Table K V)
      → Stores Room put
      → Distinct old
      → IsTable hash t
      → Room (filled old) t
      → (u : Table K V) × (refill put old t ≡ some u)
        × IsTable hash u
        × Room 0 u
        × ((j : K) → lookup j (contents u) ≡ or_else (lookup j (items old)) (lookup j (contents t)))
  unfolding refill lookup
  refill-Stores Room put [] t stores only h room = (t, refl, h, room, λ j. refl)
  refill-Stores Room put (vacant ∷ old) t stores only h room =
      refill-Stores Room put old t stores (Distinct-tail vacant old only) h room
  refill-Stores Room put (full k v ∷ old) t stores only h room =
      let (u, e, tidy, stored, left) = stores (filled old) t k v h room in
      let (w, f, clean, rest, moved) =
        refill-Stores Room put old u stores (Distinct-tail (full k v) old only) tidy left in
      let once = absent_lookup old k (λ i x here. ground (arith, only 0 (suc i) k v x refl here)) in
      (
        w,
        rw (refill, e) f,
        clean,
        rest,
        λ j. ground (arith, moved j, stored j, once, same.beq_iff k j),
      )
  refill-Stores Room put (deleted ∷ old) t stores only h room =
      refill-Stores Room put old t stores (Distinct-tail deleted old only) h room
