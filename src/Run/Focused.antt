-- ===== src/Run/Focused.antt =====
-- The run loop over the focus stack: `hasRunActivation` and `nextRunActivation` of
-- internal/engine/run.go, which ask the agenda driver unless the run is for a query proof.
use gess.Prelude.{if◌then◌else◌, Bool, Option, none, some, true}
use gess.Focus.{Driver}
use gess.Focus.Agenda.{AgendaOps}
use gess.Focus.Search.{next_focused_activation, has_focused_activation}
use gess.Run.Ops.{RunOps}

-- The agenda driver, and all else of a session.
pub record Running (S W : Type 0) : Type 0 where
  pub driver : Driver S
  pub world : W

module _ {S A : Type 0} (ag : AgendaOps S A) (all_main : Bool) where
  -- The loop of `nextFocusedActivation` ends within its fuel, so its `none` never comes.
  unfoldable pub choose : Driver S → Driver S × Option A
  choose d = elim (next_focused_activation ag all_main d) [ none ↦ (d, none) | some r ↦ r ]

module _ {S A W : Type 0} (ag : AgendaOps S A) (all_main : Bool) where
  -- `for_query` is the search of the agenda by query proof.
  unfoldable pub has_run_activation :
      (Running S W → Running S W × Bool) → Bool → Running S W → Running S W × Bool
  has_run_activation for_query query x =
      if query
      then for_query x
      else let (d, more) = has_focused_activation ag all_main x.driver in
        (record x { driver = d }, more)

  unfoldable pub next_run_activation :
      (Running S W → Running S W × Option A) → Bool → Running S W → Running S W × Option A
  next_run_activation for_query query x =
      if query
      then for_query x
      else let (d, choice) = choose ag all_main x.driver in (record x { driver = d }, choice)

  -- The operations of a session whose other parts are `base`; compaction is the agenda's own.
  unfoldable pub focused_ops : (S → S) → RunOps (Running S W) A → RunOps (Running S W) A
  focused_ops compact base = record base {
    has_activation = has_run_activation (base.has_activation true);
    next_activation = next_run_activation (base.next_activation true);
    compact_consumed =
        λ x. record x { driver = record x.driver { agenda = compact x.driver.agenda } };
  }
