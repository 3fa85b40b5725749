-- ===== src/Run/Tests.antt =====
-- A small agenda for the run loop, and the witnesses.
use gess.Prelude.{
  if◌then◌else◌, Bool, true, false, ◌≡◌, refl, [], ◌∷◌, ℕ, zero, suc, ◌-◌, ◌==◌, nat_eq, Option,
  none, some, is_some, list_beq, is_space, trim_left, trim_right, trim_space,
}
use gess.Prelude.Result.{ok}
use gess.Module.{is_zero}
use gess.Focus.{new_driver, depth, current_focus, frame, pop_focus}
use gess.Focus.Search.{
  next_focused_activation, asks_all, frame_at, has_at, has_focused_activation, has_loop, next_loop,
}
use gess.Focus.Agenda.{AgendaOps}
use gess.Run.{run_completed, run_fire_limit}
use gess.Run.Ops.{RunOps}
use gess.Run.Config.{RunConfig, with_max_firings, new_run_config, Positive, new_run_config-Positive}
use gess.Run.Loop.{Stop, run_agenda_loop, loop, round, safe_point, take_next, act, limited}
use gess.Run.Rounds.{limit_to}
use gess.Run.Limit.{Follows, run_agenda_loop-Follows}
use gess.Run.Focused.{Running, focused_ops, next_run_activation, has_run_activation, choose}
use gess.Run.Guards.{RunSession, RunCall, run}
use gess.Run.GuardLaws.{Restores, run-Restores}

-- An agenda of `n` activations of one module.
abbrev take_one : ℕ → ℕ × Option ℕ
take_one zero = (zero, none)
take_one (suc n) = (n, some n)

abbrev count_agenda : AgendaOps ℕ ℕ
count_agenda = record {
  next = take_one;
  next_for = λ m n. take_one n;
  has = λ n. (n, is_some (take_one n).1);
  has_for = λ m n. (n, is_some (take_one n).1);
}

-- A session to which `world` requests will still come, one at each look at the queue.
abbrev Small : Type 0
Small = Running ℕ ℕ

abbrev look : Small → Small × Bool
look x = (record x { world = x.world - 1 }, if x.world == 0 then false else true)

abbrev small_ops : RunOps Small ℕ
small_ops = record {
  context_error = λ x. (x, none);
  drain = λ x. (x, none);
  queued = look;
  halt_requested = λ x. false;
  has_activation = λ query x. (x, false);
  next_activation = λ query x. (x, none);
  compact_consumed = λ x. x;
  announce = λ a x. x;
  execute = λ a x. (x, none);
  abandon_delta = λ x. x;
  announce_failure = λ a x. x;
  reconcile_delta = λ x. (x, none);
  release = λ x. x;
  dirty = λ x. false;
  ready = λ x. true;
  reconcile_agenda = λ x. (x, ok true);
  reserve = λ x. x;
  fail_queued = λ e x. x;
}

abbrev loop_ops : RunOps Small ℕ
loop_ops = focused_ops count_agenda false (λ n. n) small_ops

abbrev start : ℕ → Small
start n = record { driver = new_driver n depth; world = 2 }

-- Two of three activations are fired, and the limit is reported.
abbrev limited_stop : Stop Small
limited_stop = record {
  state = record { driver = new_driver 1 depth; world = 0 };
  result = record { run_id = 1; status = run_fire_limit; fired = 2 };
  error = none;
}

limited_run : run_agenda_loop loop_ops 1 (limit_to (some 2) false) 9 (start 3) ≡ some limited_stop
unfolding run_agenda_loop focused_ops loop round safe_point take_next next_run_activation choose
    next_focused_activation asks_all list_beq current_focus new_driver frame act limited
    has_run_activation frame_at has_at has_focused_activation has_loop next_loop pop_focus is_zero
    is_space trim_left trim_right trim_space
limited_run = refl

-- Where the agenda has just two, the run completes.
abbrev drained_stop : Stop Small
drained_stop = record {
  state = record { driver = record (new_driver 0 depth) { focus_stack = [] }; world = 0 };
  result = record { run_id = 1; status = run_completed; fired = 2 };
  error = none;
}

drained_run : run_agenda_loop loop_ops 1 (limit_to (some 2) false) 9 (start 2) ≡ some drained_stop
unfolding run_agenda_loop focused_ops loop round safe_point take_next next_run_activation choose
    next_focused_activation asks_all list_beq current_focus new_driver frame act limited
    has_run_activation frame_at has_at has_focused_activation has_loop next_loop pop_focus is_zero
    is_space trim_left trim_right trim_space
drained_run = refl

run_agenda_loop-Follows_example :
    Follows loop_ops 1 false 2
      (run_agenda_loop loop_ops 1 (limit_to (some 2) false) 9 (start 3))
      (run_agenda_loop loop_ops 1 (limit_to none false) 9 (start 3))
run_agenda_loop-Follows_example = run_agenda_loop-Follows loop_ops 1 false 2 9 (start 3)

new_run_config-Positive_example : Positive (limit_to (some 3) false)
unfolding new_run_config gess.Run.Config.apply_run_options gess.Run.Config.apply_run_option
new_run_config-Positive_example =
    new_run_config-Positive (with_max_firings 3 ∷ []) (limit_to (some 3) false) refl

-- A run of a session with one rule set, its loop being one that fires nothing.
abbrev idle_loop : RunConfig → ℕ → RunSession ℕ ℕ ℕ → Option (Stop (RunSession ℕ ℕ ℕ))
idle_loop config id x = some (record {
  state = x;
  result = record { run_id = id; status = run_completed; fired = 0 };
  error = none;
})

abbrev idle_session : RunSession ℕ ℕ ℕ
idle_session = record {
  session = record {
    closed = false;
    revision =
        some (record { modules = []; rules_by_revision_id = []; all_rules_in_main_module = true });
    driver = new_driver 0 depth;
    listener_dispatch_active = false;
    run_guard_held = false;
    mutate_held = false;
    lock_held = false;
    queue = [];
  };
  next_run_sequence = 0;
  halt_requested = true;
  run_active = false;
  run_activation = none;
  demand_cascade = none;
}

abbrev plain_call : RunCall
plain_call = record {
  options = with_max_firings 2 ∷ [];
  context_before = none;
  context_after = none;
  closed_meanwhile = false;
}

run-Restores_example :
    Restores idle_loop idle_session (run idle_loop (λ x. 7) plain_call idle_session)
run-Restores_example = run-Restores idle_loop (λ x. 7) plain_call idle_session
