-- ===== src/Run/Ending.antt =====
-- How many rounds a limited run needs: its firings, and one for each time that requests are found.
use gess.Prelude.{Bool, true, ◌≡◌, ℕ, suc, Option, some}
use gess.Run.Ops.{RunOps}
use gess.Run.Loop.{Stop}
use gess.Run.Rounds.{polled, settled}
use gess.Run.Steps.{fired_on}

module _ {X A : Type 0} (o : RunOps X A) (run_id : ℕ) (query : Bool) where
  -- The run returns.
  abbrev pub Returns : Option (Stop X) → Type 0
  Returns r = (s : Stop X) × (r ≡ some s)

  -- From the state on, `k` rounds find requests in the queue, between rounds that fire.
  pub data Interrupted : ℕ → X → Type 0 where
    uninterrupted : (x : X) → Interrupted 0 x
    by_requests :
        (k : ℕ) (x : X)
        → (o.queued (polled o run_id query x)).1 ≡ true
        → Interrupted k (settled o run_id query x)
        → Interrupted (suc k) x
    after_firing :
        (k : ℕ) (x : X) (a : A)
        → (o.next_activation query (settled o run_id query x)).1 ≡ some a
        → Interrupted k (fired_on o run_id query a (settled o run_id query x))
        → Interrupted k x
