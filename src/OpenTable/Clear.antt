-- ===== src/OpenTable/Clear.antt =====
-- `clear` empties the table although it only visits the touched slots.
use gess.Prelude.{
  if◌then◌else◌, Bool-cases, true, ◌≡◌, refl, ◌∙◌, ap, inl, inr, List, [], ◌∷◌, ℕ, zero, suc, ◌≤◌,
  ◌==◌, nat_eq, leb, length, arith,
}
use gess.Prelude.Assoc.{contains}
use gess.OpenTable.Slots.{
  Slot, vacant, full, deleted, at, set_at, blank, items, is_vacant, at-set_at, length-set_at,
  items-blank, length-blank,
}
use gess.OpenTable.Table.{Table, wipe, clear, with_slots}
use gess.OpenTable.Invariant.{IsTable, contents, with_slots-IsTable}

module _ {ℓ κ} {K : Type ℓ} {V : Type κ} where
  length-wipe : (touched : List ℕ) (xs : List (Slot K V)) → length (wipe touched xs) ≡ length xs
  unfolding wipe
  length-wipe [] xs = refl
  length-wipe (i ∷ touched) xs = elim (Bool-cases (leb (length xs) i)) [
    | inl out ↦ rw out (length-wipe touched xs)
    | inr low ↦ rw low (length-wipe touched (set_at xs i vacant) ∙ length-set_at xs i vacant)
  ]

  at-out : (xs : List (Slot K V)) (i : ℕ) → length xs ≤ i → at xs i ≡ vacant
  at-out [] i out = refl
  at-out (x ∷ xs) zero out = ground (arith, out)
  at-out (x ∷ xs) (suc i) out = at-out xs i (omega arith)

  -- A slot stays or is emptied, and a touched slot is emptied.
  wipe-keeps :
      (touched : List ℕ) (xs : List (Slot K V)) (j : ℕ)
      → is_vacant (at xs j) ≡ true
      → is_vacant (at (wipe touched xs) j) ≡ true
  unfolding wipe
  wipe-keeps [] xs j free = free
  wipe-keeps (i ∷ touched) xs j free = elim (Bool-cases (leb (length xs) i)) [
    | inl out ↦ rw out (wipe-keeps touched xs j free)
    | inr low ↦ rw low (
        wipe-keeps touched (set_at xs i vacant) j
          (ground (arith, free, at-set_at xs i j vacant (ground (arith, low)))))
  ]

  wipe-touched :
      (touched : List ℕ) (xs : List (Slot K V)) (j : ℕ)
      → contains j touched ≡ true
      → is_vacant (at (wipe touched xs) j) ≡ true
  unfolding wipe contains
  wipe-touched [] xs j seen = ground (arith, seen)
  wipe-touched (i ∷ touched) xs j seen = elim (Bool-cases (i == j)) [
    | inl same ↦
        wipe-keeps touched (if leb (length xs) i then xs else set_at xs i vacant) j
          (ground (arith, same, at-out xs j, at-set_at xs i j vacant))
    | inr other ↦
        wipe-touched touched (if leb (length xs) i then xs else set_at xs i vacant) j
          (ground (arith, other, seen))
  ]

  all_vacant :
      (xs : List (Slot K V)) → ((i : ℕ) → is_vacant (at xs i) ≡ true) → xs ≡ blank (length xs)
  all_vacant [] free = refl
  all_vacant (vacant ∷ xs) free = ap (◌∷◌ vacant) (all_vacant xs (λ i. free (suc i)))
  all_vacant (full k v ∷ xs) free = ground (arith, free 0)
  all_vacant (deleted ∷ xs) free = ground (arith, free 0)

  wiped :
      (hash : K → ℕ) (t : Table K V)
      → IsTable hash t
      → wipe t.touched t.entries ≡ blank (length t.entries)
  wiped hash t h =
      all_vacant (wipe t.touched t.entries) (λ i. elim (Bool-cases (is_vacant (at t.entries i))) [
        | inl free ↦ wipe-keeps t.touched t.entries i free
        | inr solid ↦ wipe-touched t.touched t.entries i (h.marks i solid)
      ])
      ∙ ap blank (length-wipe t.touched t.entries)

  no_slots-contents : (xs : List (Slot K V)) → length xs ≡ 0 → items xs ≡ []
  no_slots-contents [] e = refl
  no_slots-contents (x ∷ xs) e = ground (arith, e)

  cleared_slots :
      (hash : K → ℕ) (t : Table K V)
      → IsTable hash t
      → (length t.entries ≡ 0 → ⊥)
      → IsTable hash (with_slots {K = K} {V = V} (length t.entries))
  cleared_slots hash t h filled_some = elim h.sized [
    | inl bare ↦ elim (filled_some bare) [ ]
    | inr (two, low) ↦ with_slots-IsTable hash (length t.entries) two low
  ]

  -- Nothing is left, and the slots stay as many.
  pub clear-contents :
      (hash : K → ℕ) (t : Table K V)
      → IsTable hash t
      → IsTable hash (clear t)
        × (contents (clear t) ≡ [])
        × (length (clear t).entries ≡ length t.entries)
  unfolding clear
  clear-contents hash t h = elim (Bool-cases (length t.entries == 0)) [
    | inl bare ↦ rw bare (h, no_slots-contents t.entries (ground (arith, bare)), refl)
    | inr slots ↦
        rw (slots, wiped hash t h)
          (
            cleared_slots hash t h (ground (arith, slots)),
            items-blank (length t.entries),
            length-blank K V (length t.entries),
          )
  ]
