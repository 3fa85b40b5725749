-- ===== src/Run/Loop.antt =====
-- `runAgendaLoop`, on a number of rounds; `none` says that it goes on after them.
use gess.Prelude.{if◌then◌else◌, Bool, true, false, ℕ, zero, suc, Option, none, some, leb}
use gess.Prelude.Result.{
  Error, canceled, deadline_exceeded, unsupported_runtime, action_failed, ok, err,
}
use gess.Run.{
  RunStatus, run_completed, run_fire_limit, run_halted, run_canceled, run_failed, run_action_failed,
  RunResult,
}
use gess.Run.Config.{RunConfig}
use gess.Run.Ops.{RunOps}

-- `errors.Is(err, context.Canceled) || errors.Is(err, context.DeadlineExceeded)`.
abbrev pub is_context_error : Error → Bool
is_context_error canceled = true
is_context_error deadline_exceeded = true
is_context_error _ = false

-- `errors.As(err, &actionFailure)`.
abbrev pub is_action_failure : Error → Bool
is_action_failure action_failed = true
is_action_failure _ = false

abbrev pub error_status : Error → RunStatus
error_status e = if is_context_error e then run_canceled else run_failed

-- `config.hasMaxFirings && fired >= config.maxFirings`.
abbrev pub at_limit : Option ℕ → ℕ → Bool
at_limit none fired = false
at_limit (some n) fired = leb n fired

-- How a run ends: its state, its result and its error.
pub record Stop (X : Type 0) : Type 0 where
  pub state : X
  pub result : RunResult
  pub error : Option Error

module _ {X A : Type 0} (o : RunOps X A) (run_id : ℕ) (config : RunConfig) where
  abbrev pub stop : RunStatus → ℕ → X → Stop X
  stop status fired x = record {
    state = x;
    result = record { run_id = run_id; status = status; fired = fired };
    error = none;
  }

  -- `abort`, and the deferred `failQueuedMutations`.
  abbrev pub abort : RunStatus → ℕ → Error → X → Stop X
  abort status fired e x = record {
    state = o.fail_queued e x;
    result = record { run_id = run_id; status = status; fired = fired };
    error = some e;
  }

  -- The limit is reached: complete where nothing is pending, else report the limit.
  unfoldable pub limited : ℕ → X → Stop X
  limited fired x =
      let (y, more) = o.has_activation config.query_proof x in
      if more
      then stop run_fire_limit fired y
      else stop run_completed fired (
          o.compact_consumed
            (if config.query_proof then y else (o.next_activation config.query_proof y).0))

  -- An activation has been taken: run its actions and reconcile the agenda.
  unfoldable pub act : (ℕ → X → Option (Stop X)) → A → ℕ → X → Option (Stop X)
  act rest a fired x =
      let (y, failure) = o.execute a x in
      elim failure [
        | some e ↦
            let z = o.abandon_delta y in
            some (
              if is_context_error e
              then abort run_canceled fired e z
              else if is_action_failure e
              then abort run_action_failed fired e (o.announce_failure a z)
              else abort run_failed fired e z)
        | none ↦
            let (z, broken) = o.reconcile_delta y in
            elim broken [
              | some e ↦ some (abort (error_status e) fired e z)
              | none ↦ elim (o.dirty (o.release z)) [
                | true ↦ some (abort run_failed fired unsupported_runtime (o.release z))
                | false ↦ rest fired (o.release z)
              ]
            ]
      ]

  -- Below the limit: complete where nothing is pending, else fire.
  unfoldable pub take_next : (ℕ → X → Option (Stop X)) → ℕ → X → Option (Stop X)
  take_next rest fired x =
      let (z, choice) = o.next_activation config.query_proof x in
      elim choice [
        | none ↦ some (stop run_completed fired (o.compact_consumed z))
        | some a ↦ act rest a (suc fired) (o.announce a z)
      ]

  -- The safe point, after the drain and with the context alive.
  unfoldable pub safe_point : (ℕ → X → Option (Stop X)) → ℕ → X → Option (Stop X)
  safe_point rest fired x =
      let (y, busy) = o.queued x in
      elim busy [
        | true ↦ rest fired y
        | false ↦ elim (o.halt_requested y) [
          | true ↦ some (stop run_halted fired y)
          | false ↦ elim (at_limit config.max_firings fired) [
            | true ↦ some (limited fired y)
            | false ↦ take_next rest fired y
          ]
        ]
      ]

  -- One round of the loop.
  unfoldable pub round : (ℕ → X → Option (Stop X)) → ℕ → X → Option (Stop X)
  round rest fired x =
      let (x1, gone) = o.context_error x in
      elim gone [
        | some e ↦ some (abort run_canceled fired e x1)
        | none ↦
            let (x2, broken) = o.drain x1 in
            elim broken [
              | some e ↦ some (abort (error_status e) fired e x2)
              | none ↦
                  let (x3, late) = o.context_error x2 in
                  elim late [
                    | some e ↦ some (abort run_canceled fired e x3)
                    | none ↦ safe_point rest fired x3
                  ]
            ]
      ]

  unfoldable pub loop : ℕ → ℕ → X → Option (Stop X)
  loop zero fired x = none
  loop (suc rounds) fired x = round (λ n y. loop rounds n y) fired x

  -- `runAgendaLoop`: a first drain, an agenda that is ready, then the loop.
  unfoldable pub run_agenda_loop : ℕ → X → Option (Stop X)
  run_agenda_loop rounds x =
      let (y, broken) = o.drain x in
      elim broken [
        | some e ↦ some (abort (error_status e) 0 e y)
        | none ↦ elim (o.dirty y) [
          | true ↦ some (abort run_failed 0 unsupported_runtime y)
          | false ↦ elim (o.ready y) [
            | true ↦ loop rounds 0 (o.reserve y)
            | false ↦
                let (z, reconciled) = o.reconcile_agenda y in
                elim reconciled [
                  | err e ↦ some (abort (error_status e) 0 e z)
                  | ok false ↦ some (abort run_failed 0 unsupported_runtime z)
                  | ok true ↦ loop rounds 0 (o.reserve z)
                ]
          ]
        ]
      ]
