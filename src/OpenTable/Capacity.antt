-- ===== src/OpenTable/Capacity.antt =====
-- The sizes of the tables: `...SlotCapacity`, `...NeedsGrow` and `...PowerOfTwo`, once in
-- backchain_demand_support_table.go and once, as `graphTokenBucket...`, in
-- rete_graph_token_bucket_table.go. An `int` is a natural number here: a size that would overflow
-- it is out of reach of any memory.
use Prim.Native.Nat.{max}
use native.Mathlib.Nat.{pow-suc}
use gess.Prelude.{
  if◌then◌else◌, Bool, Bool-cases, ◌||◌, ◌≡◌, refl, inl, inr, ℕ, zero, suc, ◌+◌, ◌*◌, ◌≤◌, ◌<◌, ◌^◌,
  ap, sym, ◌∙◌, ◌==◌, nat_eq, leb, ltb, arith,
}

-- `for out < value { out <<= 1 }`, for a number of rounds.
unfoldable pub shift_until : ℕ → ℕ → ℕ → ℕ
shift_until value out zero = out
shift_until value out (suc rounds) =
    let next = shift_until value (out * 2) rounds in if ltb out value then next else out

unfoldable pub power_of_two : ℕ → ℕ
power_of_two value = if leb value 8 then 8 else shift_until value 1 value

unfoldable pub slot_capacity : ℕ → ℕ
slot_capacity capacity = if leb capacity 0 then 0 else power_of_two (max 8 (capacity * 2))

unfoldable pub needs_grow : ℕ → ℕ → Bool
needs_grow used slots = (slots == 0) || leb (slots * 3) (used * 4)

shift_until-le :
    (value rounds out : ℕ) → value ≤ out + rounds → 1 ≤ out → value ≤ shift_until value out rounds
unfolding shift_until
shift_until-le value zero out enough low = omega arith
shift_until-le value (suc rounds) out enough low =
    ground (arith, shift_until-le value rounds (out * 2))

shift_until-tight :
    (value rounds out : ℕ) → out < value * 2 → shift_until value out rounds < value * 2
unfolding shift_until
shift_until-tight value zero out low = low
shift_until-tight value (suc rounds) out low =
    ground (arith, shift_until-tight value rounds (out * 2))

-- A power of two.
abbrev pub PowerOfTwo : ℕ → Type 0
PowerOfTwo n = (p : ℕ) × (n ≡ 2 ^ p)

PowerOfTwo-double : (n : ℕ) → PowerOfTwo n → PowerOfTwo (n * 2)
PowerOfTwo-double n (p, e) = (suc p, ap (λ m. m * 2) e ∙ sym (pow-suc 2 p))

shift_until-PowerOfTwo :
    (value rounds out : ℕ) → PowerOfTwo out → PowerOfTwo (shift_until value out rounds)
unfolding shift_until
shift_until-PowerOfTwo value zero out two = two
shift_until-PowerOfTwo value (suc rounds) out two = elim (Bool-cases (ltb out value)) [
  | inl less ↦ rw less (shift_until-PowerOfTwo value rounds (out * 2) (PowerOfTwo-double out two))
  | inr more ↦ rw more two
]

-- The loop ends: the result is a power of two, at least 8 and at least the value, and above 8 it is
-- less than twice the value, so the least such power.
pub power_of_two-least :
    (value : ℕ)
    → PowerOfTwo (power_of_two value)
      × (8 ≤ power_of_two value)
      × (value ≤ power_of_two value)
      × (8 < value → power_of_two value < value * 2)
unfolding power_of_two
power_of_two-least value = elim (Bool-cases (leb value 8)) [
  | inl small ↦ rw small ((3, refl), omega arith, ground arith, ground arith)
  | inr large ↦ rw large (
    shift_until-PowerOfTwo value value 1 (0, refl),
    ground (arith, shift_until-le value value 1),
    shift_until-le value value 1 (omega arith) (omega arith),
    λ above. shift_until-tight value value 1 (omega arith),
  )
]
