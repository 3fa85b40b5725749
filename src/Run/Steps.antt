-- ===== src/Run/Steps.antt =====
-- What taking the next activation does, and how the run loop is entered.
use gess.Prelude.{
  Bool, Bool-cases, Option-cases, true, false, ◌≡◌, refl, ◌⊎◌, inl, inr, ℕ, suc, Option, none, some,
}
use gess.Run.{run_completed, run_failed}
use gess.Run.Ops.{RunOps}
use gess.Run.Loop.{Stop, stop, take_next, loop, run_agenda_loop, error_status}
use gess.Prelude.Result.{Error, Result, ok, err, unsupported_runtime}
use gess.Run.Rounds.{
  limit_to, Next, Halts, aborted, acted, act-Acts, fails, acts, error_status-limit,
}

Result-cases : (r : Result Bool) → ((e : Error) × (r ≡ err e)) ⊎ ((r ≡ ok true) ⊎ (r ≡ ok false))
Result-cases (err e) = inl (e, refl)
Result-cases (ok true) = inr (inl refl)
Result-cases (ok false) = inr (inr refl)

module _ {X A : Type 0} (o : RunOps X A) (run_id : ℕ) (query : Bool) where
  -- The state after an activation has been taken and its actions have run.
  abbrev pub fired_on : A → X → X
  fired_on a z = acted o run_id query a (o.announce a (o.next_activation query z).0)

  pub take_next-none :
      (limit : Option ℕ) (rest : Next o run_id query) (fired : ℕ) (z : X)
      → (o.next_activation query z).1 ≡ none
      → take_next o run_id (limit_to limit query) rest fired z
        ≡ some (
            stop o run_id
              (limit_to limit query)
              run_completed
              fired
              (o.compact_consumed (o.next_activation query z).0))
  unfolding take_next
  take_next-none limit rest fired z drained = rw (take_next, drained) refl

  pub data Takes (fired : ℕ) (z : X) : Type 0 where
    finds_none :
        ((limit : Option ℕ) (rest : Next o run_id query)
          → take_next o run_id (limit_to limit query) rest fired z
            ≡ some (
                stop o run_id
                  (limit_to limit query)
                  run_completed
                  fired
                  (o.compact_consumed (o.next_activation query z).0)))
        → Takes fired z
    falls :
        (s : Stop X)
        → Halts o run_id query (suc fired) s
        → ((limit : Option ℕ) (rest : Next o run_id query)
            → take_next o run_id (limit_to limit query) rest fired z ≡ some s)
        → Takes fired z
    fires :
        (a : A)
        → (o.next_activation query z).1 ≡ some a
        → ((limit : Option ℕ) (rest : Next o run_id query)
            → take_next o run_id (limit_to limit query) rest fired z
              ≡ rest (suc fired) (fired_on a z))
        → Takes fired z

  pub take_next-Takes : (fired : ℕ) (z : X) → Takes fired z
  unfolding take_next
  take_next-Takes fired z =
      let w = (o.next_activation query z).0 in
      elim (Option-cases (o.next_activation query z).1) [
        | inl drained ↦ finds_none (λ limit rest. take_next-none limit rest fired z drained)
        | inr (a, found) ↦ elim (act-Acts o run_id query a (suc fired) (o.announce a w)) [
          | fails s h step ↦ falls s h (λ limit rest. rw (take_next, found) (step limit rest))
          | acts step ↦ fires a found (λ limit rest. rw (take_next, found) (step limit rest))
        ]
      ]

  pub data Starts (x : X) : Type 0 where
    refuses :
        (s : Stop X)
        → Halts o run_id query 0 s
        → ((limit : Option ℕ) (rounds : ℕ)
            → run_agenda_loop o run_id (limit_to limit query) rounds x ≡ some s)
        → Starts x
    enters :
        (y : X)
        → ((limit : Option ℕ) (rounds : ℕ)
            → run_agenda_loop o run_id (limit_to limit query) rounds x
              ≡ loop o run_id (limit_to limit query) rounds 0 y)
        → Starts x

  pub run_agenda_loop-Starts : (x : X) → Starts x
  unfolding run_agenda_loop
  run_agenda_loop-Starts x =
      let y = (o.drain x).0 in
      let z = (o.reconcile_agenda y).0 in
      elim (Option-cases (o.drain x).1) [
        | inr (e, broken) ↦
            refuses (aborted o run_id query (error_status e) 0 e y) (refl, error_status-limit e)
              (λ limit rounds. rw (run_agenda_loop, broken) refl)
        | inl drained ↦ elim (Bool-cases (o.dirty y)) [
          | inl dirty ↦
              refuses (aborted o run_id query run_failed 0 unsupported_runtime y) (refl, refl)
                (λ limit rounds. rw (run_agenda_loop, drained, dirty) refl)
          | inr clean ↦ elim (Bool-cases (o.ready y)) [
            | inl ready ↦
                enters (o.reserve y)
                  (λ limit rounds. rw (run_agenda_loop, drained, clean, ready) refl)
            | inr stale ↦ elim (Result-cases (o.reconcile_agenda y).1) [
              | inl (e, failed) ↦
                  refuses (aborted o run_id query (error_status e) 0 e z)
                    (refl, error_status-limit e)
                    (λ limit rounds. rw (run_agenda_loop, drained, clean, stale, failed) refl)
              | inr (inl done) ↦
                  enters (o.reserve z)
                    (λ limit rounds. rw (run_agenda_loop, drained, clean, stale, done) refl)
              | inr (inr nothing) ↦
                  refuses (aborted o run_id query run_failed 0 unsupported_runtime z) (refl, refl)
                    (λ limit rounds. rw (run_agenda_loop, drained, clean, stale, nothing) refl)
            ]
          ]
        ]
      ]
