-- ===== src/OpenTable/Rehash.antt =====
-- `set` and `rehash` call each other no deeper than twice, and store what they should.
use Prim.Native.Nat.{max}
use gess.Prelude.{
  if◌then◌else◌, Bool-cases, false, ◌&&◌, ◌≡◌, refl, ◌∙◌, ap, inl, inr, ℕ, suc, ◌+◌, ◌*◌, ◌<◌, ◌≤◌,
  Option, none, some, Eq, ◌==◌, nat_eq, leb, length, arith,
}
use gess.Prelude.Assoc.{lookup}
use gess.OpenTable.Slots.{filled, items-blank, filled≤occupied, length-blank}
use gess.OpenTable.Capacity.{power_of_two, power_of_two-least, needs_grow}
use gess.OpenTable.Table.{Table, refill, rehash_by, set, rehash, with_slots}
use gess.OpenTable.Invariant.{IsTable, contents, with_slots-IsTable}
use gess.OpenTable.Place.{Stored, place-SetIn}
use gess.OpenTable.Refill.{Stores, refill-Stores, or_else}

or_else-none {ℓ} : {A : Type ℓ} (x : Option A) → or_else x none ≡ x
or_else-none none = refl
or_else-none (some x) = refl

larger : (slots more : ℕ) → max 8 (max 8 (slots * 2)) ≤ more → leb more slots ≡ false
larger slots more above = ground (arith, above)

module _ {ℓ κ} {K : Type ℓ} {V : Type κ} ⦃same : Eq K⦄ (hash : K → ℕ) where
  -- Every key has the bucket it had.
  abbrev pub Kept : Table K V → Table K V → Type (ℓ ⊔ κ)
  Kept t u = (j : K) → lookup j (contents u) ≡ lookup j (contents t)

  -- The new slots, refilled.
  refilled :
      (Room : ℕ → Table K V → Type 0) (put : K → V → Table K V → Option (Table K V)) (capacity : ℕ)
      (t : Table K V)
      → Stores hash Room put
      → IsTable hash t
      → Room (filled t.entries) (with_slots (power_of_two capacity))
      → (u : Table K V) × (refill put t.entries (with_slots (power_of_two capacity)) ≡ some u)
        × IsTable hash u
        × Room 0 u
        × Kept t u
  unfolding lookup
  refilled Room put capacity t stores h room =
      let (two, low, above, tight) = power_of_two-least capacity in
      let (u, e, tidy, left, moved) =
        refill-Stores hash Room put t.entries (with_slots (power_of_two capacity)) stores
          h.laid.only (with_slots-IsTable hash (power_of_two capacity) two low) room in
      (
        u,
        e,
        tidy,
        left,
        λ j.
            moved j
            ∙ ap (λ m. or_else (lookup j (contents t)) (lookup j m))
                (items-blank (power_of_two capacity))
            ∙ or_else-none (lookup j (contents t)),
      )

  -- Room for `m` more pairs and one besides, in `slots` slots, without growing.
  abbrev Slack : ℕ → ℕ → Table K V → Type 0
  Slack slots m t = (length t.entries ≡ slots) × ((t.used + suc m) * 4 < slots * 3)

  Slack-fits :
      (slots m : ℕ) (t : Table K V)
      → Slack slots (suc m) t
      → needs_grow (t.used + 1) (length t.entries) ≡ false
  unfolding needs_grow
  Slack-fits slots m t (same, room) = ground (arith, same, room)

  set-Stores : (depth slots : ℕ) → Stores hash (Slack slots) (set hash (suc depth))
  unfolding set
  set-Stores depth slots m t k v h room =
      let fits = Slack-fits slots m t room in
      let (u, e, tidy, stored, len, used) = place-SetIn hash t k v h fits in
      (
        u,
        rw (fits, e) refl,
        tidy,
        stored,
        (omega (arith, len, room.0), omega (arith, used, room.1)),
      )

  Slack-left :
      (slots : ℕ) (t : Table K V)
      → Slack slots 0 t
      → needs_grow (t.used + 1) (length t.entries) ≡ false
  unfolding needs_grow
  Slack-left slots t (same, room) = ground (arith, same, room)

  -- Growing makes room, and the calls of `set` in it do not grow.
  grown :
      (depth : ℕ) (t : Table K V)
      → IsTable hash t
      → (u : Table K V) × (rehash_by (set hash (suc depth)) (max 8 (length t.entries * 2)) t
          ≡ some u)
        × IsTable hash u
        × (needs_grow (u.used + 1) (length u.entries) ≡ false)
        × Kept t u
  unfolding rehash_by
  grown depth t h =
      let capacity = max 8 (max 8 (length t.entries * 2)) in
      let slots = power_of_two capacity in
      let above = (power_of_two-least capacity).2 in
      let (u, e, tidy, left, kept) =
        refilled (Slack slots) (set hash (suc depth)) capacity t (set-Stores depth slots) h (
          length-blank K V slots,
          omega (arith, above, h.load, h.used_lem, h.count_lem, filled≤occupied t.entries),
        ) in
      (u, rw (larger (length t.entries) slots above) e, tidy, Slack-left slots u left, kept)

  -- On a well-formed table set returns, with itself and rehash nested no deeper than twice, a
  -- well-formed table in which the key has the bucket and every other key has what it had.
  pub set-lookup :
      (depth : ℕ) (t : Table K V) (key : K) (bucket : V)
      → IsTable hash t
      → (u : Table K V) × (set hash (suc (suc depth)) key bucket t ≡ some u)
        × IsTable hash u
        × Stored key bucket t u
  unfolding set
  set-lookup depth t key bucket h = elim (Bool-cases (needs_grow (t.used + 1) (length t.entries))) [
    | inl full ↦
        let (w, e, sound, fits, kept) = grown depth t h in
        let (u, f, tidy, stored, len, used) = place-SetIn hash w key bucket sound fits in
        (
          u,
          rw (full, e) f,
          tidy,
          λ j. stored j ∙ ap (λ o. if key == j then some bucket else o) (kept j),
        )
    | inr fits ↦
        let (u, f, tidy, stored, len, used) = place-SetIn hash t key bucket h fits in
        (u, rw fits f, tidy, stored)
  ]

  pub rehash-lookup :
      (capacity : ℕ) (t : Table K V)
      → IsTable hash t
      → (u : Table K V) × (rehash hash capacity t ≡ some u) × IsTable hash u × Kept t u
  unfolding rehash rehash_by
  rehash-lookup capacity t h =
      let slots = power_of_two (max 8 capacity) in
      elim (Bool-cases (leb slots (length t.entries) && (t.used == t.count))) [
        | inl stays ↦ (t, rw stays refl, h, λ j. refl)
        | inr moves ↦
            let (u, e, tidy, left, kept) =
              refilled (λ m w. Unit) (set hash 2) (max 8 capacity) t
                (λ m w k v sound room.
                  let (u, e, tidy, stored) = set-lookup 0 w k v sound in (u, e, tidy, stored, tt))
                h tt in
            (u, rw moves e, tidy, kept)
      ]
