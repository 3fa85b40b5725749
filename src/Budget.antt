-- ===== src/Budget.antt =====
-- The budget of a demand cascade (internal/engine/backchain_demand_budget.go): how many steps
-- backward chaining may take before it gives up.
mod Laws
mod Tests
use Prim.Native.Nat.{max}
use gess.Prelude.{
  if◌then◌else◌, Bool, true, false, ◌&&◌, ℕ, ◌+◌, zero, suc, Option, none, some, leb, ltb,
}

pub record DemandCounters : Type 0 where
  pub cascades : ℕ
  pub steps : ℕ
  pub length_max : ℕ
  pub limit_hits : ℕ

-- A budget, with the counters of the session that it points to.
pub record Budget : Type 0 where
  pub taken : ℕ
  pub started : Bool
  pub counters : DemandCounters

-- `DemandCascadeLimitError`.
pub record LimitError : Type 0 where
  pub limit : ℕ
  pub error_steps : ℕ

unfoldable pub new_budget : DemandCounters → Budget
new_budget counters = record { taken = 0; started = false; counters = counters }

-- The first step of a cascade counts the cascade.
unfoldable pub start_cascade : Budget → Budget
start_cascade b = if b.started then b else record b {
  started = true;
  counters = record b.counters { cascades = b.counters.cascades + 1 };
}

-- `consume`, where `limit` is the session's `demandLimit`, and 0 means that there is none.
unfoldable pub consume : ℕ → Budget → Budget × Option LimitError
consume limit start =
    let b = start_cascade start in
    if ltb 0 limit && leb limit b.taken
    then (
      record b { counters = record b.counters { limit_hits = b.counters.limit_hits + 1 } },
      some (record { limit = limit; error_steps = b.taken }),
    )
    else (
      record b {
        taken = b.taken + 1;
        counters = record b.counters {
          steps = b.counters.steps + 1;
          length_max = max b.counters.length_max (b.taken + 1);
        };
      },
      none,
    )

-- A number of steps that a cascade asks for.
unfoldable pub consume_times : ℕ → ℕ → Budget → Budget
consume_times limit zero b = b
consume_times limit (suc n) b = (consume limit (consume_times limit n b)).0
