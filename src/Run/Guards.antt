-- ===== src/Run/Guards.antt =====
-- `Run`, `runAgendaWithMutationReleased`, `beginRun` and `endRun`: the guards round the agenda loop.
-- `S` is the agenda, `A` the activations, `B` the budgets of a demand cascade.
use gess.Prelude.{if◌then◌else◌, Bool, true, false, List, ℕ, ◌+◌, Option, none, some}
use gess.Prelude.Result.{Error, closed_session, concurrency_misuse, invalid_ruleset, ok, err}
use gess.Focus.Session.{Session, begin_mutation, end_mutation}
use gess.Run.{RunStatus, run_canceled, run_failed, run_closed, run_concurrency_misuse}
use gess.Run.Config.{RunConfig, RunOption, new_run_config}
use gess.Run.Loop.{Stop}

-- The part of a session that a run changes besides what its loop does.
pub record RunSession (S A B : Type 0) : Type 0 where
  pub session : Session S
  pub next_run_sequence : ℕ
  pub halt_requested : Bool
  pub run_active : Bool
  pub run_activation : Option A
  pub demand_cascade : Option B

-- What `Run` reads: the context before and after the lock, and whether the session was closed while
-- it waited for the lock.
pub record RunCall : Type 0 where
  pub options : List RunOption
  pub context_before : Option Error
  pub context_after : Option Error
  pub closed_meanwhile : Bool

module _ {S : Type 0} where
  unfoldable pub begin_run : Session S → Session S × Bool
  begin_run s = if s.run_guard_held then (s, false) else (record s { run_guard_held = true }, true)

  unfoldable pub end_run : Session S → Session S
  end_run s = record s { run_guard_held = false }

module _ {S A B : Type 0} where
  -- A result without a run.
  abbrev pub refuse : RunStatus → Error → RunSession S A B → Stop (RunSession S A B)
  refuse status e x = record {
    state = x;
    result = record { run_id = 0; status = status; fired = 0 };
    error = some e;
  }

  abbrev pub with_session : Session S → RunSession S A B → RunSession S A B
  with_session s x = record x { session = s }

  -- `if previousDemandCascade == nil`, with the deferred restoration.
  abbrev pub enter_cascade : B → RunSession S A B → RunSession S A B
  enter_cascade budget x = record x {
    demand_cascade = elim x.demand_cascade [ none ↦ some budget | some b ↦ some b ];
  }

  abbrev pub leave_cascade : Option B → RunSession S A B → RunSession S A B
  leave_cascade none x = record x { demand_cascade = none }
  leave_cascade (some b) x = x

  -- From the start of the loop to its end: the mutation guard is released meanwhile.
  abbrev pub enter_run : B → RunSession S A B → RunSession S A B
  enter_run budget x = record (enter_cascade budget x) {
    session = end_mutation x.session;
    next_run_sequence = x.next_run_sequence + 1;
    halt_requested = false;
    run_active = true;
  }

  abbrev pub leave_run : RunSession S A B → RunSession S A B × Bool
  leave_run x =
      let (s, held) = begin_mutation x.session in
      (record x { session = end_run s; run_activation = none; run_active = false }, held)

  -- `runAgendaWithMutationReleased`, whose second result says that the mutation guard is held.
  unfoldable pub run_with_mutation_released :
      (RunConfig → ℕ → RunSession S A B → Option (Stop (RunSession S A B)))
      → (RunSession S A B → B)
      → RunConfig
      → RunSession S A B
      → Option (Stop (RunSession S A B) × Bool)
  run_with_mutation_released agenda_loop budget config x =
      let (s, began) = begin_run x.session in
      elim began [
        | false ↦ some (refuse run_concurrency_misuse concurrency_misuse (with_session s x), true)
        | true ↦
            let y = enter_run (budget x) (with_session s x) in
            elim (agenda_loop config y.next_run_sequence y) [
              | none ↦ none
              | some ended ↦
                  let (z, held) = leave_run ended.state in
                  some (
                    record ended {
                      state = leave_cascade x.demand_cascade z;
                      error = if held then ended.error else some concurrency_misuse;
                    },
                    held,
                  )
            ]
      ]

  -- Give the mutation guard back where it is held.
  abbrev pub release_if : Bool → Stop (RunSession S A B) → Stop (RunSession S A B)
  release_if true e = record e { state = with_session (end_mutation e.state.session) e.state }
  release_if false e = e

  -- `Run` once `beginMutation` has succeeded, in the locked session.
  unfoldable pub run_locked :
      (RunConfig → ℕ → RunSession S A B → Option (Stop (RunSession S A B)))
      → (RunSession S A B → B)
      → RunCall
      → RunConfig
      → RunSession S A B
      → Option (Stop (RunSession S A B))
  run_locked agenda_loop budget call config x =
      let unlocked = with_session (end_mutation x.session) x in
      elim call.closed_meanwhile [
        | true ↦ some (refuse run_closed closed_session unlocked)
        | false ↦ elim call.context_after [
          | some e ↦ some (refuse run_canceled e unlocked)
          | none ↦ elim x.session.revision [
            | none ↦ some (refuse run_failed invalid_ruleset unlocked)
            | some r ↦ elim (run_with_mutation_released agenda_loop budget config x) [
              | none ↦ none
              | some (ended, held) ↦ some (release_if held ended)
            ]
          ]
        ]
      ]

  -- `Run` from `beginMutation` on.
  unfoldable pub run_guarded :
      (RunConfig → ℕ → RunSession S A B → Option (Stop (RunSession S A B)))
      → (RunSession S A B → B)
      → RunCall
      → RunConfig
      → RunSession S A B
      → Option (Stop (RunSession S A B))
  run_guarded agenda_loop budget call config x =
      let (s, began) = begin_mutation x.session in
      elim began [
        | false ↦ some (refuse run_concurrency_misuse concurrency_misuse (with_session s x))
        | true ↦ run_locked agenda_loop budget call config (with_session s x)
      ]

  -- `Run`; a nil context is the background context.
  unfoldable pub run :
      (RunConfig → ℕ → RunSession S A B → Option (Stop (RunSession S A B)))
      → (RunSession S A B → B)
      → RunCall
      → RunSession S A B
      → Option (Stop (RunSession S A B))
  run agenda_loop budget call x =
      if x.session.closed
      then some (refuse run_closed closed_session x)
      else elim (new_run_config call.options) [
        | err e ↦ some (refuse run_failed e x)
        | ok config ↦ elim call.context_before [
          | some e ↦ some (refuse run_canceled e x)
          | none ↦ run_guarded agenda_loop budget call config x
        ]
      ]

  -- The three guards, each held or free.
  abbrev pub guards : RunSession S A B → Bool × Bool × Bool
  guards x = (x.session.run_guard_held, x.session.mutate_held, x.session.lock_held)
