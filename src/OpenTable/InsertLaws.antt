-- ===== src/OpenTable/InsertLaws.antt =====
-- Where `findInsert` writes a key.
use gess.Prelude.{
  Bool, Bool-cases, true, false, ◌≡◌, refl, sym, ◌∙◌, ap, inl, inr, List, ℕ, zero, suc, ◌+◌, ◌%◌,
  ◌<◌, Option, none, some, Eq, ◌==◌, length, arith,
}
use gess.OpenTable.Slots.{Slot, vacant, full, deleted, at, is_full}
use gess.OpenTable.Wheel.{wheel_step}
use gess.OpenTable.Probe.{find_insert_from, find_insert, first_free, note_deleted, insert_round}
use gess.OpenTable.ProbeLaws.{Passed, Passed-zero, Passed-suc, plus_zero}

module _ {ℓ κ} {K : Type ℓ} {V : Type κ} ⦃e : Eq K⦄ where
  -- The index `i` is one of the probe's first `d` slots, and holds no key.
  abbrev pub Free : List (Slot K V) → ℕ → ℕ → ℕ → Type 0
  Free entries start d i =
      (b : ℕ) × (b < d) × ((start + b) % length entries ≡ i) × (is_full (at entries i) ≡ false)

  -- What `firstDeleted` is after `d` slots.
  abbrev pub Noted : List (Slot K V) → ℕ → ℕ → Option ℕ → Type 0
  Noted entries start d none = Unit
  Noted entries start d (some i) = Free entries start d i

  pub data Placed (key : K) (entries : List (Slot K V)) (start bound : ℕ) (r : Option (ℕ × Bool))
      : Type (ℓ ⊔ κ) where
    stuck : r ≡ none → Passed key entries start bound → Placed key entries start bound r
    fresh :
        (c i : ℕ)
        → r ≡ some (i, false)
        → Passed key entries start c
        → at entries ((start + c) % length entries) ≡ vacant
        → Free entries start (suc c) i
        → Placed key entries start bound r
    taken :
        (c : ℕ) (v : V)
        → r ≡ some ((start + c) % length entries, true)
        → Passed key entries start c
        → at entries ((start + c) % length entries) ≡ full key v
        → Placed key entries start bound r

  Noted-weaken :
      (entries : List (Slot K V)) (start d : ℕ) (noted : Option ℕ)
      → Noted entries start d noted
      → Noted entries start (suc d) noted
  Noted-weaken entries start d none seen = tt
  Noted-weaken entries start d (some i) (b, low, here, free) = (b, omega arith, here, free)

  Noted-note_deleted :
      (entries : List (Slot K V)) (start d : ℕ) (noted : Option ℕ)
      → Noted entries start d noted
      → is_full (at entries ((start + d) % length entries)) ≡ false
      → Noted entries start (suc d) (note_deleted noted ((start + d) % length entries))
  Noted-note_deleted entries start d none seen free = (d, omega arith, refl, free)
  Noted-note_deleted entries start d (some i) (b, low, here, free) more =
      (b, omega arith, here, free)

  first_free-Free :
      (entries : List (Slot K V)) (start d : ℕ) (noted : Option ℕ)
      → Noted entries start d noted
      → is_full (at entries ((start + d) % length entries)) ≡ false
      → Free entries start (suc d) (first_free noted ((start + d) % length entries))
  first_free-Free entries start d none seen free = (d, omega arith, refl, free)
  first_free-Free entries start d (some i) (b, low, here, free) more = (b, omega arith, here, free)

  insert_round-Placed :
      (key : K) (entries : List (Slot K V)) (start bound d : ℕ) (noted : Option ℕ)
      (others : Option ℕ → Option (ℕ × Bool)) (slot : Slot K V)
      → at entries ((start + d) % length entries) ≡ slot
      → Passed key entries start d
      → Noted entries start d noted
      → (Passed key entries start (suc d)
          → (more : Option ℕ) → Noted entries start (suc d) more
          → Placed key entries start bound (others more))
      → Placed key entries start bound
          (insert_round key slot ((start + d) % length entries) noted others)
  insert_round-Placed key entries start bound d noted others vacant h past seen next =
      fresh d (first_free noted ((start + d) % length entries)) refl past h
        (first_free-Free entries start d noted seen (ap is_full h))
  insert_round-Placed key entries start bound d noted others (full k v) h past seen next =
      elim (Bool-cases (k == key)) [
        | inl same ↦
            rw same (taken d v refl past (h ∙ ap (λ j. full j v) ((e.beq_iff k key).0 same)))
        | inr other ↦ rw other (
            next (Passed-suc key entries start d past (ground (arith, h)) (ground (arith, h))) noted
              (Noted-weaken entries start d noted seen))
      ]
  insert_round-Placed key entries start bound d noted others deleted h past seen next =
      next (Passed-suc key entries start d past (ground (arith, h)) (ground (arith, h)))
        (note_deleted noted ((start + d) % length entries))
        (Noted-note_deleted entries start d noted seen (ap is_full h))

  find_insert_from-Placed :
      (key : K) (entries : List (Slot K V)) (start rounds d bound : ℕ) (noted : Option ℕ)
      → d + rounds ≡ bound
      → Passed key entries start d
      → Noted entries start d noted
      → Placed key entries start bound
          (find_insert_from key entries ((start + d) % length entries) noted rounds)
  unfolding find_insert_from
  find_insert_from-Placed key entries start zero d bound noted sum past seen =
      stuck refl (λ c low. past c (omega arith))
  find_insert_from-Placed key entries start (suc rounds) d bound noted sum past seen =
      insert_round-Placed key entries start bound d noted
        (λ more.
          find_insert_from key entries (((start + d) % length entries + 1) % length entries) more
            rounds)
        (at entries ((start + d) % length entries)) refl past seen
        (λ passed more marked. rw (wheel_step (length entries) start d) (
          find_insert_from-Placed key entries start rounds (suc d) bound more (omega arith) passed
            marked))

  pub find_insert-Placed :
      (hash : K → ℕ) (entries : List (Slot K V)) (key : K)
      → Placed key entries (hash key) (length entries) (find_insert hash entries key)
  unfolding find_insert
  find_insert-Placed hash entries key =
      rw (sym (ap (λ m. m % length entries) (plus_zero (hash key)))) (
        find_insert_from-Placed key entries (hash key) (length entries) 0 (length entries) none
          (omega arith) (Passed-zero key entries (hash key)) tt)
