-- ===== src/Run.antt =====
-- `Run` and its agenda loop (internal/engine/run.go), with the results of
-- internal/engine/mutation.go. What the loop asks of the rest of the session is an interface.
pub mod Ops
pub mod Config
pub mod Loop
mod Rounds
mod Steps
pub mod Bounds
pub mod Limit
pub mod Focused
pub mod Guards
pub mod Ending
pub mod GuardLaws
mod Tests
use gess.Prelude.{ℕ}

pub data RunStatus : Type 0 where
  run_completed run_fire_limit run_halted run_canceled run_failed : RunStatus
  run_action_failed run_closed run_concurrency_misuse : RunStatus

pub record RunResult : Type 0 where
  pub run_id : ℕ
  pub status : RunStatus
  pub fired : ℕ
