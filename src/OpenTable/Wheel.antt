-- ===== src/OpenTable/Wheel.antt =====
-- The order in which a probe visits the slots: from `hash & mask` on, one by one, round the end.
use gess.Prelude.{Bool-cases, inl, inr, ◌≡◌, sym, ap, ◌∙◌, ℕ, suc, ◌+◌, ◌-◌, ◌%◌, ◌<◌, ltb, arith}
use native.Mathlib.Nat.{mod-lt, mod-add-mod, mod-eq_of_lt, add-mod_right}

-- `(index + 1) & mask` goes to the next slot of the probe.
pub wheel_step : (n h d : ℕ) → ((h + d) % n + 1) % n ≡ (h + suc d) % n
wheel_step n h d = mod-add-mod (h + d) n 1 ∙ ap (λ m. m % n) (omega arith)

wheel_shift : (n h d j : ℕ) → j < n → (h % n + d ≡ j) → (h + d) % n ≡ j
wheel_shift n h d j low e = sym (mod-add-mod h n d) ∙ ap (λ m. m % n) e ∙ mod-eq_of_lt low

wheel_turn : (n h d j : ℕ) → j < n → (h % n + d ≡ j + n) → (h + d) % n ≡ j
wheel_turn n h d j low e =
    sym (mod-add-mod h n d) ∙ ap (λ m. m % n) e ∙ add-mod_right j n ∙ mod-eq_of_lt low

-- The slot `j` is some number of steps after the start, and less than a whole turn.
pub wheel_reach : (n h j : ℕ) → j < n → (d : ℕ) × (d < n) × ((h + d) % n ≡ j)
wheel_reach n h j low =
    let inside = mod-lt h {m = n} (omega (arith, low)) in
    elim (Bool-cases (ltb j (h % n))) [
      | inl before ↦
          (j + n - h % n, ground arith, wheel_turn n h (j + n - h % n) j low (omega arith))
      | inr after ↦ (j - h % n, omega arith, wheel_shift n h (j - h % n) j low (ground arith))
    ]
