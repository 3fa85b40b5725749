-- ===== src/Run/Rounds.antt =====
-- What a round of the run loop does: it stops, or it starts the next round in a state that the
-- limit has no part in, or it comes to the test of the limit.
use gess.Prelude.{
  if◌then◌else◌, Bool, Bool-cases, Option-cases, true, false, ◌≡◌, refl, inl, inr, ℕ, Option, none,
  some, arith,
}
use gess.Run.{RunStatus, run_fire_limit, run_halted, run_canceled, run_failed, run_action_failed}
use gess.Run.Config.{RunConfig}
use gess.Run.Ops.{RunOps}
use gess.Run.Loop.{
  Stop, stop, abort, limited, act, take_next, safe_point, round, at_limit, is_context_error,
  is_action_failure, error_status,
}
use gess.Prelude.Result.{Error, unsupported_runtime}

-- A configuration with this limit.
abbrev pub limit_to : Option ℕ → Bool → RunConfig
limit_to limit query = record { max_firings = limit; query_proof = query }

abbrev pub is_fire_limit : RunStatus → Bool
is_fire_limit run_fire_limit = true
is_fire_limit _ = false

pub error_status-limit : (e : Error) → is_fire_limit (error_status e) ≡ false
error_status-limit e = ground arith

module _ {X A : Type 0} (o : RunOps X A) (run_id : ℕ) (query : Bool) where
  -- The state after the two looks at the context and the drain between them.
  abbrev pub polled : X → X
  polled x = (o.context_error (o.drain (o.context_error x).0).0).0

  -- The state at the safe point, and whether requests have come in.
  abbrev pub settled : X → X
  settled x = (o.queued (polled x)).0

  -- The state after the actions of an activation.
  abbrev pub acted : A → X → X
  acted a x = o.release (o.reconcile_delta (o.execute a x).0).0

  abbrev pub Next : Type 0
  Next = ℕ → X → Option (Stop X)

  -- A stop for another reason than the limit.
  abbrev pub Halts : ℕ → Stop X → Type 0
  Halts fired s = (s.result.fired ≡ fired) × (is_fire_limit s.result.status ≡ false)

  abbrev pub aborted : RunStatus → ℕ → Error → X → Stop X
  aborted = abort o run_id (limit_to none query)

  pub data Acts (a : A) (fired : ℕ) (x : X) : Type 0 where
    fails :
        (s : Stop X)
        → Halts fired s
        → ((limit : Option ℕ) (rest : Next)
            → act o run_id (limit_to limit query) rest a fired x ≡ some s)
        → Acts a fired x
    acts :
        ((limit : Option ℕ) (rest : Next)
          → act o run_id (limit_to limit query) rest a fired x ≡ rest fired (acted a x))
        → Acts a fired x

  pub act-Acts : (a : A) (fired : ℕ) (x : X) → Acts a fired x
  unfolding act
  act-Acts a fired x = elim (Option-cases (o.execute a x).1) [
    | inr (e, failed) ↦ elim (Bool-cases (is_context_error e)) [
      | inl gone ↦
          fails (aborted run_canceled fired e (o.abandon_delta (o.execute a x).0)) (refl, refl)
            (λ limit rest. rw (act, failed, gone) refl)
      | inr other ↦ elim (Bool-cases (is_action_failure e)) [
        | inl action ↦
            fails
              (aborted run_action_failed fired e
                (o.announce_failure a (o.abandon_delta (o.execute a x).0)))
              (refl, refl) (λ limit rest. rw (act, failed, other, action) refl)
        | inr plain ↦
            fails (aborted run_failed fired e (o.abandon_delta (o.execute a x).0)) (refl, refl)
              (λ limit rest. rw (act, failed, other, plain) refl)
      ]
    ]
    | inl done ↦ elim (Option-cases (o.reconcile_delta (o.execute a x).0).1) [
      | inr (e, broken) ↦
          fails (aborted (error_status e) fired e (o.reconcile_delta (o.execute a x).0).0)
            (refl, error_status-limit e) (λ limit rest. rw (act, done, broken) refl)
      | inl fits ↦ elim (Bool-cases (o.dirty (acted a x))) [
        | inl dirty ↦
            fails (aborted run_failed fired unsupported_runtime (acted a x)) (refl, refl)
              (λ limit rest. rw (act, done, fits, dirty) refl)
        | inr clean ↦ acts (λ limit rest. rw (act, done, fits, clean) refl)
      ]
    ]
  ]

  pub data Rounds (fired : ℕ) (x : X) : Type 0 where
    stops :
        (s : Stop X)
        → Halts fired s
        → ((limit : Option ℕ) (rest : Next)
            → round o run_id (limit_to limit query) rest fired x ≡ some s)
        → Rounds fired x
    waits :
        (o.queued (polled x)).1 ≡ true
        → ((limit : Option ℕ) (rest : Next)
            → round o run_id (limit_to limit query) rest fired x ≡ rest fired (settled x))
        → Rounds fired x
    decides :
        o.halt_requested (settled x) ≡ false
        → ((limit : Option ℕ) (rest : Next)
            → round o run_id (limit_to limit query) rest fired x ≡ (
                if at_limit limit fired
                then some (limited o run_id (limit_to limit query) fired (settled x))
                else take_next o run_id (limit_to limit query) rest fired (settled x)))
        → Rounds fired x

  test :
      (limit : Option ℕ) (rest : Next) (fired : ℕ) (y : X)
      → ◌≡◌ {A = Option (Stop X)}
          (elim (at_limit limit fired) [
            | true ↦ some (limited o run_id (limit_to limit query) fired y)
            | false ↦ take_next o run_id (limit_to limit query) rest fired y
          ])
          (if at_limit limit fired
            then some (limited o run_id (limit_to limit query) fired y)
            else take_next o run_id (limit_to limit query) rest fired y)
  test limit rest fired y = elim (Bool-cases (at_limit limit fired)) [
    | inl e ↦ rw e refl
    | inr e ↦ rw e refl
  ]

  pub round-Rounds : (fired : ℕ) (x : X) → Rounds fired x
  unfolding round safe_point
  round-Rounds fired x = elim (Option-cases (o.context_error x).1) [
    | inr (e, gone) ↦
        stops (aborted run_canceled fired e (o.context_error x).0) (refl, refl)
          (λ limit rest. rw (round, gone) refl)
    | inl alive ↦ elim (Option-cases (o.drain (o.context_error x).0).1) [
      | inr (e, broken) ↦
          stops (aborted (error_status e) fired e (o.drain (o.context_error x).0).0)
            (refl, error_status-limit e) (λ limit rest. rw (round, alive, broken) refl)
      | inl drained ↦ elim (Option-cases (o.context_error (o.drain (o.context_error x).0).0).1) [
        | inr (e, late) ↦
            stops (aborted run_canceled fired e (polled x)) (refl, refl)
              (λ limit rest. rw (round, alive, drained, late) refl)
        | inl still ↦ elim (Bool-cases (o.queued (polled x)).1) [
          | inl busy ↦
              waits busy (λ limit rest. rw (round, alive, drained, still, safe_point, busy) refl)
          | inr quiet ↦ elim (Bool-cases (o.halt_requested (settled x))) [
            | inl halt ↦
                stops (stop o run_id (limit_to none query) run_halted fired (settled x))
                  (refl, refl)
                  (λ limit rest. rw (round, alive, drained, still, safe_point, quiet, halt) refl)
            | inr on ↦ decides on (λ limit rest.
                rw (round, alive, drained, still, safe_point, quiet, on)
                  (test limit rest fired (settled x)))
          ]
        ]
      ]
    ]
  ]
