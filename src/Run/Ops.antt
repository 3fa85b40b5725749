-- ===== src/Run/Ops.antt =====
-- What the run loop asks of a session with states `X` and activations `A`. Other goroutines may act
-- between two steps, so what is read from outside, the context and the queue, also moves the state.
use gess.Prelude.{Bool, Option}
use gess.Prelude.Result.{Error, Result}

pub record RunOps (X A : Type 0) : Type 0 where
  -- `ctx.Err()`.
  pub context_error : X → X × Option Error
  -- `drainQueuedMutations`.
  pub drain : X → X × Option Error
  -- `len(mutationQueue) > 0`, under its lock.
  pub queued : X → X × Bool
  -- `runHaltRequested`.
  pub halt_requested : X → Bool
  -- `hasRunActivation` and `nextRunActivation`; `query` says that the run is for a query proof.
  pub has_activation : Bool → X → X × Bool
  pub next_activation : Bool → X → X × Option A
  -- `compactConsumedActivationRows`.
  pub compact_consumed : X → X
  -- The rule-fired event, the refraction record and the current activation.
  pub announce : A → X → X
  -- `executeTrustedActivationActions`, with the current activation cleared afterwards.
  pub execute : A → X → X × Option Error
  -- `abandonRunAgendaDelta`, and the action-failed event.
  pub abandon_delta : X → X
  pub announce_failure : A → X → X
  -- `reconcileRunAgendaDelta`.
  pub reconcile_delta : X → X × Option Error
  -- `releaseTransientAgendaDeltas` and `maybeCompactActivationStorage`.
  pub release : X → X
  pub dirty : X → Bool
  pub ready : X → Bool
  -- `reconcileAgendaWithoutSnapshotAndChanges`.
  pub reconcile_agenda : X → X × Result Bool
  -- `reserveRunGeneratedFactStorage`.
  pub reserve : X → X
  -- `failQueuedMutations`.
  pub fail_queued : Error → X → X
