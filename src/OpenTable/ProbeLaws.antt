-- ===== src/OpenTable/ProbeLaws.antt =====
-- What a probe has seen when it stops, and that it stops when a slot is empty.
use gess.Prelude.{
  Bool-cases, false, ◌≡◌, refl, sym, ◌∙◌, ap, inl, inr, List, ℕ, zero, suc, ◌+◌, ◌%◌, ◌<◌, ltb,
  Option, none, some, Eq, ◌==◌, length, arith,
}
use gess.OpenTable.Slots.{Slot, vacant, full, deleted, at, is_vacant, holds, occupied, vacant_index}
use gess.OpenTable.Wheel.{wheel_step, wheel_reach}
use gess.OpenTable.Probe.{find_from, find, find_round}

pub plus_zero : (m : ℕ) → m + 0 ≡ m
plus_zero m = omega arith

same_end : (c d : ℕ) → c < suc d → ltb c d ≡ false → c ≡ d
same_end c d low more = ground arith

module _ {ℓ κ} {K : Type ℓ} {V : Type κ} ⦃e : Eq K⦄ where
  -- The first `d` slots of the probe are not empty and hold other keys.
  abbrev pub Passed : K → List (Slot K V) → ℕ → ℕ → Type 0
  Passed key entries start d =
      (c : ℕ)
      → c < d
      → (is_vacant (at entries ((start + c) % length entries)) ≡ false)
        × (holds key (at entries ((start + c) % length entries)) ≡ false)

  pub data Probed (key : K) (entries : List (Slot K V)) (start : ℕ) (bound : ℕ)
      (r : Option (Option ℕ)) : Type (ℓ ⊔ κ) where
    exhausted : r ≡ none → Passed key entries start bound → Probed key entries start bound r
    missing :
        (c : ℕ)
        → r ≡ some none
        → Passed key entries start c
        → at entries ((start + c) % length entries) ≡ vacant
        → Probed key entries start bound r
    present :
        (c : ℕ) (v : V)
        → r ≡ some (some ((start + c) % length entries))
        → Passed key entries start c
        → at entries ((start + c) % length entries) ≡ full key v
        → Probed key entries start bound r

  pub Passed-suc :
      (key : K) (entries : List (Slot K V)) (start d : ℕ)
      → Passed key entries start d
      → is_vacant (at entries ((start + d) % length entries)) ≡ false
      → holds key (at entries ((start + d) % length entries)) ≡ false
      → Passed key entries start (suc d)
  Passed-suc key entries start d past h k c low = elim (Bool-cases (ltb c d)) [
    | inl less ↦ past c (ground arith)
    | inr more ↦ rw (same_end c d low more) (h, k)
  ]

  find_round-Probed :
      (key : K) (entries : List (Slot K V)) (start bound d : ℕ) (r : Option (Option ℕ))
      (slot : Slot K V)
      → at entries ((start + d) % length entries) ≡ slot
      → Passed key entries start d
      → (Passed key entries start (suc d) → Probed key entries start bound r)
      → Probed key entries start bound (find_round key slot ((start + d) % length entries) r)
  find_round-Probed key entries start bound d r vacant h past next = missing d refl past h
  find_round-Probed key entries start bound d r (full k v) h past next =
      elim (Bool-cases (k == key)) [
        | inl same ↦
            rw same (present d v refl past (h ∙ ap (λ j. full j v) ((e.beq_iff k key).0 same)))
        | inr other ↦
            rw other
              (next (Passed-suc key entries start d past (ground (arith, h)) (ground (arith, h))))
      ]
  find_round-Probed key entries start bound d r deleted h past next =
      next (Passed-suc key entries start d past (ground (arith, h)) (ground (arith, h)))

  pub find_from-Probed :
      (key : K) (entries : List (Slot K V)) (start rounds d bound : ℕ)
      → d + rounds ≡ bound
      → Passed key entries start d
      → Probed key entries start bound (find_from key entries ((start + d) % length entries) rounds)
  unfolding find_from
  find_from-Probed key entries start zero d bound sum past =
      exhausted refl (λ c low. past c (omega arith))
  find_from-Probed key entries start (suc rounds) d bound sum past =
      find_round-Probed key entries start bound d
        (find_from key entries (((start + d) % length entries + 1) % length entries) rounds)
        (at entries ((start + d) % length entries)) refl past
        (λ more.
          rw (wheel_step (length entries) start d)
            (find_from-Probed key entries start rounds (suc d) bound (omega arith) more))

  -- A vacant slot is met within a turn.
  pub Passed-turn :
      (key : K) (entries : List (Slot K V)) (start : ℕ)
      → occupied entries < length entries
      → Passed key entries start (length entries)
      → ⊥
  Passed-turn key entries start room past =
      let (i, low, free) = vacant_index entries room in
      let (d, less, here) = wheel_reach (length entries) start i low in
      let seen = (past d less).0 in
      ground (arith, ap (λ j. is_vacant (at entries j)) here, ap is_vacant free, seen)

  pub Passed-zero : (key : K) (entries : List (Slot K V)) (start : ℕ) → Passed key entries start 0
  Passed-zero key entries start c low = ground (arith, low)

  pub find-Probed :
      (hash : K → ℕ) (entries : List (Slot K V)) (key : K)
      → Probed key entries (hash key) (length entries) (find hash entries key)
  unfolding find
  find-Probed hash entries key = rw (sym (ap (λ m. m % length entries) (plus_zero (hash key)))) (
      find_from-Probed key entries (hash key) (length entries) 0 (length entries) (omega arith)
        (Passed-zero key entries (hash key)))
