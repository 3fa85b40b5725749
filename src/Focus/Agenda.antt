-- ===== src/Focus/Agenda.antt =====
-- What the focus loops ask of an agenda.
use gess.Prelude.{Bool, Option}
use gess.Module.{ModuleName}

-- `nextInternalPtr`, `nextInternalPtrForModule`, `hasPendingActivation` and
-- `hasPendingActivationForModule`. Each may drop stale entries, so each returns a state.
pub record AgendaOps (S A : Type 0) : Type 0 where
  pub next : S → S × Option A
  pub next_for : ModuleName → S → S × Option A
  pub has : S → S × Bool
  pub has_for : ModuleName → S → S × Bool
