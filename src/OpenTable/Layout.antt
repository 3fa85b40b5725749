-- ===== src/OpenTable/Layout.antt =====
-- How the full slots stand: each where the probe of its key reaches it before an empty slot, and no
-- key twice. So a probe that meets an empty slot has shown that the key is absent.
use gess.Prelude.{
  Bool-cases, Option-cases, false, ◌≡◌, ◌∙◌, ap, ◌⊎◌, inl, inr, List, ℕ, ◌+◌, ◌%◌, ◌<◌, ltb, none,
  some, Eq, nat_eq, length, arith,
}
use gess.Prelude.Assoc.{lookup}
use gess.OpenTable.Slots.{
  Slot, vacant, full, at, set_at, blank, is_vacant, items, occupied, Distinct, holds, holds-full,
  at-blank, at-set_at, length-set_at, lookup-items-some, lookup-items_full,
}
use gess.OpenTable.Probe.{find}
use gess.OpenTable.ProbeLaws.{Passed, Passed-turn, find-Probed, exhausted, missing, present}

level : (c d : ℕ) → ltb d c ≡ false → ltb c d ≡ false → c ≡ d
level c d more less = ground arith

module _ {ℓ κ} {K : Type ℓ} {V : Type κ} where
  -- The slot `i` comes `d` steps after the start, and no slot before it is empty.
  abbrev pub Reached : List (Slot K V) → ℕ → ℕ → Type 0
  Reached xs start i =
      (d : ℕ) × ((start + d) % length xs ≡ i)
      × ((c : ℕ) → c < d → is_vacant (at xs ((start + c) % length xs)) ≡ false)

  pub record IsLaid (hash : K → ℕ) (xs : List (Slot K V)) : Type (ℓ ⊔ κ) where
    pub reach : (i : ℕ) (k : K) (v : V) → at xs i ≡ full k v → Reached xs (hash k) i
    pub only : Distinct xs

  pub blank-IsLaid : (hash : K → ℕ) (n : ℕ) → IsLaid hash (blank n)
  blank-IsLaid hash n = record {
    reach = λ i k v e. ground (arith, e, at-blank {K = K} {V = V} n i);
    only = λ i j k v w e f. ground (arith, e, at-blank {K = K} {V = V} n i);
  }

module _ {ℓ κ} {K : Type ℓ} {V : Type κ} ⦃e : Eq K⦄ where
  pub absent :
      (hash : K → ℕ) (xs : List (Slot K V)) (key : K) (c : ℕ)
      → IsLaid hash xs
      → Passed key xs (hash key) c
      → at xs ((hash key + c) % length xs) ≡ vacant
      → (i : ℕ) (v : V) → at xs i ≡ full key v
      → ⊥
  absent hash xs key c laid past free i v here =
      let (d, there, before) = laid.reach i key v here in
      let spot = holds-full key (at xs ((hash key + d) % length xs)) v (ap (at xs) there ∙ here) in
      elim (Bool-cases (ltb d c)) [
        | inl less ↦ ground (arith, spot, (past d (ground arith)).1)
        | inr more ↦ elim (Bool-cases (ltb c d)) [
          | inl less ↦ ground (arith, before c (ground arith), ap is_vacant free)
          | inr least ↦
              let same = level c d more least in
              ground (
                arith,
                spot,
                ap (λ m. holds key (at xs ((hash key + m) % length xs))) same,
                ap (holds key) free,
              )
        ]
      ]

  pub absent_lookup :
      (xs : List (Slot K V)) (key : K)
      → ((i : ℕ) (v : V) → at xs i ≡ full key v → ⊥)
      → lookup key (items xs) ≡ none
  absent_lookup xs key never = elim (Option-cases (lookup key (items xs))) [
    | inl e ↦ e
    | inr (v, e) ↦ let (i, here) = lookup-items-some xs key v e in elim (never i v here) [ ]
  ]

  -- Where the slots are laid out by the hash function and one of them is empty, find ends within
  -- one turn. It answers the slot of the key where the pairs of the table have the key, and
  -- otherwise that the key is absent.
  pub find-lookup :
      (hash : K → ℕ) (xs : List (Slot K V)) (key : K)
      → IsLaid hash xs
      → occupied xs < length xs
      → ((find hash xs key ≡ some none) × (lookup key (items xs) ≡ none))
        ⊎ ((i : ℕ) × (v : V) × (find hash xs key ≡ some (some i))
            × (at xs i ≡ full key v)
            × (lookup key (items xs) ≡ some v))
  find-lookup hash xs key laid room = elim (find-Probed hash xs key) [
    | exhausted e past ↦ elim (Passed-turn key xs (hash key) room past) [ ]
    | missing c e past free ↦ inl (e, absent_lookup xs key (absent hash xs key c laid past free))
    | present c v e past here ↦ inr (
      (hash key + c) % length xs,
      v,
      e,
      here,
      lookup-items_full xs key v ((hash key + c) % length xs) laid.only here,
    )
  ]

module _ {ℓ κ} {K : Type ℓ} {V : Type κ} where
  -- An assignment that empties no slot keeps what was reached.
  pub Reached-set_at :
      (xs : List (Slot K V)) (i : ℕ) (slot : Slot K V) (start j : ℕ)
      → i < length xs
      → is_vacant slot ≡ false
      → Reached xs start j
      → Reached (set_at xs i slot) start j
  Reached-set_at xs i slot start j low solid (d, there, before) = rw (length-set_at xs i slot) (
    d,
    there,
    λ c less. ground (arith, at-set_at xs i ((start + c) % length xs) slot low, before c less),
  )
