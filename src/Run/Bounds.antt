-- ===== src/Run/Bounds.antt =====
-- How many activations a limited run fires.
use gess.Prelude.{
  Bool, Bool-cases, true, false, ◌≡◌, inl, inr, ℕ, zero, suc, Option, none, some, leb, ◌≤◌, ◌<◌,
  arith,
}
use gess.Run.Ops.{RunOps}
use gess.Run.Loop.{Stop, limited, take_next, loop, run_agenda_loop}
use gess.Run.Rounds.{limit_to, settled, is_fire_limit, round-Rounds, stops, waits, decides}
use gess.Run.Steps.{
  take_next-Takes, finds_none, falls, fires, fired_on, run_agenda_loop-Starts, refuses, enters,
}

-- The run has not ended, or with `P`.
abbrev pub Ends {ℓ} : {X : Type 0} → (Stop X → Type ℓ) → Option (Stop X) → Type ℓ
Ends P none = Unit
Ends P (some s) = P s

-- At most `n` activations were fired, and all of them where the limit stopped the run.
abbrev pub Within : {X : Type 0} → ℕ → Stop X → Type 0
Within n s = (s.result.fired ≤ n) × (is_fire_limit s.result.status ≡ true → s.result.fired ≡ n)

module _ {X A : Type 0} (o : RunOps X A) (run_id : ℕ) (query : Bool) where
  halts-Within :
      (n fired : ℕ) (s : Stop X)
      → fired ≤ n
      → s.result.fired ≡ fired
      → is_fire_limit s.result.status ≡ false
      → Within n s
  halts-Within n fired s low e k = (omega (arith, low, e), λ h. ground (arith, h, k))

  limited-Within :
      (n fired : ℕ) (x : X)
      → fired ≤ n
      → leb n fired ≡ true
      → Within n (limited o run_id (limit_to (some n) query) fired x)
  unfolding limited
  limited-Within n fired x low h = elim (Bool-cases (o.has_activation query x).1) [
    | inl more ↦ rw (limited, more) (low, λ e. ground (arith, low, h))
    | inr drained ↦ rw (limited, drained) (low, λ e. ground (arith, e))
  ]

  take-Within :
      (n fired : ℕ) (z : X) (rest : ℕ → X → Option (Stop X))
      → fired < n
      → ((y : X) → Ends (Within n) (rest (suc fired) y))
      → Ends (Within n) (take_next o run_id (limit_to (some n) query) rest fired z)
  take-Within n fired z rest below k = elim (take_next-Takes o run_id query fired z) [
    | finds_none step ↦ rw (step (some n) rest) (omega (arith, below), λ e. ground (arith, e))
    | falls s (e, h) step ↦
        rw (step (some n) rest) (halts-Within n (suc fired) s (omega (arith, below)) e h)
    | fires a found step ↦ rw (step (some n) rest) (k (fired_on o run_id query a z))
  ]

  loop-Within :
      (n rounds fired : ℕ) (x : X)
      → fired ≤ n
      → Ends (Within n) (loop o run_id (limit_to (some n) query) rounds fired x)
  unfolding loop take_next
  loop-Within n zero fired x low = tt
  loop-Within n (suc rounds) fired x low =
      let rest = λ (m : ℕ) (y : X). loop o run_id (limit_to (some n) query) rounds m y in
      elim (round-Rounds o run_id query fired x) [
        | stops s (e, k) step ↦ rw (step (some n) rest) (halts-Within n fired s low e k)
        | waits busy step ↦
            rw (step (some n) rest) (loop-Within n rounds fired (settled o run_id query x) low)
        | decides on step ↦ elim (Bool-cases (leb n fired)) [
          | inl full ↦
              rw (step (some n) rest, full)
                (limited-Within n fired (settled o run_id query x) low full)
          | inr below ↦
              rw (step (some n) rest, below)
                (take-Within n fired (settled o run_id query x) rest (ground (arith, below))
                  (λ y. loop-Within n rounds (suc fired) y (ground (arith, below))))
        ]
      ]

  -- A run that is limited to n firings, on any number of rounds, either has not ended or has fired
  -- at most n activations, and exactly n where it reports the fire limit.
  pub run_agenda_loop-Within :
      (n rounds : ℕ) (x : X)
      → Ends (Within n) (run_agenda_loop o run_id (limit_to (some n) query) rounds x)
  run_agenda_loop-Within n rounds x = elim (run_agenda_loop-Starts o run_id query x) [
    | refuses s (e, h) step ↦ rw (step (some n) rounds) (halts-Within n 0 s (omega arith) e h)
    | enters y step ↦ rw (step (some n) rounds) (loop-Within n rounds 0 y (omega arith))
  ]
