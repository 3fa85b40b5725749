-- ===== src/Run/Limit.antt =====
-- A limited run against the unlimited one.
use gess.Prelude.{
  if◌then◌else◌, Bool, Bool-cases, true, false, ◌≡◌, refl, ap, sym, ◌∙◌, ◌⊎◌, inl, inr, ℕ, zero,
  suc, ◌≤◌, Option, none, some, leb, arith,
}
use gess.Run.Ops.{RunOps}
use gess.Run.Loop.{Stop, limited, take_next, loop, run_agenda_loop}
use gess.Run.Rounds.{limit_to, settled, round-Rounds, stops, waits, decides}
use gess.Run.Steps.{
  take_next-Takes, finds_none, falls, fires, fired_on, run_agenda_loop-Starts, refuses, enters,
}

level : (n m : ℕ) → m ≤ n → leb n m ≡ true → m ≡ n
level n m low full = ground (arith, full)

chosen {ℓ} : {B : Type ℓ} (n m : ℕ) (x y : B) → leb n m ≡ true → (if leb n m then x else y) ≡ x
chosen n m x y full = rw full refl

module _ {X A : Type 0} (o : RunOps X A) (run_id : ℕ) (query : Bool) where
  -- The rounds of the loop, limited and not.
  abbrev rest_limited : ℕ → ℕ → ℕ → X → Option (Stop X)
  rest_limited n rounds m y = loop o run_id (limit_to (some n) query) rounds m y

  abbrev pub rest_unlimited : ℕ → ℕ → X → Option (Stop X)
  rest_unlimited rounds m y = loop o run_id (limit_to none query) rounds m y

  -- The limited run met its limit at a safe point `z`, where it looks whether anything is pending;
  -- there the unlimited run goes on to take the next activation.
  abbrev pub MeetsLimit : ℕ → Option (Stop X) → Option (Stop X) → Type 0
  MeetsLimit n bounded free =
      (z : X) × (rounds : ℕ) × (o.halt_requested z ≡ false)
      × (bounded ≡ some (limited o run_id (limit_to (some n) query) n z))
      × (free ≡ take_next o run_id (limit_to none query) (rest_unlimited rounds) n z)

  -- Either both do the same, or the limit is met.
  abbrev pub Follows : ℕ → Option (Stop X) → Option (Stop X) → Type 0
  Follows n bounded free = (bounded ≡ free) ⊎ MeetsLimit n bounded free

  take-Follows :
      (n rounds fired : ℕ) (z : X)
      → ((y : X)
          → Follows n (rest_limited n rounds (suc fired) y) (rest_unlimited rounds (suc fired) y))
      → Follows n
          (take_next o run_id (limit_to (some n) query) (rest_limited n rounds) fired z)
          (take_next o run_id (limit_to none query) (rest_unlimited rounds) fired z)
  take-Follows n rounds fired z k =
      let here = rest_limited n rounds in
      let there = rest_unlimited rounds in
      elim (take_next-Takes o run_id query fired z) [
        | finds_none step ↦ inl (step (some n) here ∙ sym (step none there))
        | falls s h step ↦ inl (step (some n) here ∙ sym (step none there))
        | fires a found step ↦
            rw (step (some n) here, step none there) (k (fired_on o run_id query a z))
      ]

  loop-Follows :
      (n rounds fired : ℕ) (x : X)
      → fired ≤ n
      → Follows n (rest_limited n rounds fired x) (rest_unlimited rounds fired x)
  unfolding loop
  loop-Follows n zero fired x low = inl refl
  loop-Follows n (suc rounds) fired x low = elim (round-Rounds o run_id query fired x) [
    | stops s h step ↦
        inl (step (some n) (rest_limited n rounds) ∙ sym (step none (rest_unlimited rounds)))
    | waits busy step ↦
        rw (step (some n) (rest_limited n rounds), step none (rest_unlimited rounds))
          (loop-Follows n rounds fired (settled o run_id query x) low)
    | decides on step ↦
        let z = settled o run_id query x in
        elim (Bool-cases (leb n fired)) [
          | inl full ↦
              let here = level n fired low full in
              inr (
                z,
                rounds,
                on,
                step (some n) (rest_limited n rounds)
                    ∙ chosen n fired (some (limited o run_id (limit_to (some n) query) fired z))
                        (take_next o run_id (limit_to (some n) query) (rest_limited n rounds) fired
                          z)
                        full
                    ∙ ap (λ m. some (limited o run_id (limit_to (some n) query) m z)) here,
                step none (rest_unlimited rounds)
                    ∙ ap (λ m. take_next o run_id (limit_to none query) (rest_unlimited rounds) m z)
                        here,
              )
          | inr below ↦
              rw (step (some n) (rest_limited n rounds), step none (rest_unlimited rounds), below)
                (take-Follows n rounds fired z
                  (λ y. loop-Follows n rounds (suc fired) y (ground (arith, below))))
        ]
  ]

  -- Of two runs from the same state, one limited to n firings and one not, on the same number of
  -- rounds, either both do exactly the same, or the limited one comes with n firings to a safe
  -- point where no halt is requested, and there the unlimited one goes on to take the next
  -- activation.
  pub run_agenda_loop-Follows :
      (n rounds : ℕ) (x : X)
      → Follows n
          (run_agenda_loop o run_id (limit_to (some n) query) rounds x)
          (run_agenda_loop o run_id (limit_to none query) rounds x)
  run_agenda_loop-Follows n rounds x = elim (run_agenda_loop-Starts o run_id query x) [
    | refuses s h step ↦ inl (step (some n) rounds ∙ sym (step none rounds))
    | enters y step ↦
        rw (step (some n) rounds, step none rounds) (loop-Follows n rounds 0 y (omega arith))
  ]
