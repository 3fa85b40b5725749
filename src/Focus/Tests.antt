-- ===== src/Focus/Tests.antt =====
-- The theorems on the focus stack at concrete drivers and sessions, over an agenda that is the
-- list of the modules of its activations.
use gess.Prelude.{
  ◌≡◌, ◌≢◌, refl, ap, sym, ◌∙◌, Bool, true, false, Option, none, some, is_some, List, [], ◌∷◌, ℕ,
  Text, codes, ◌==◌, list_eq, nat_eq, list_beq_iff, if◌then◌else◌, arith,
}
use gess.Module.{Module, ModuleName, main_module}
use gess.Focus.{
  Driver, Strategy, depth, Rule, Change, activated, new_driver, push_focus, pop_focus,
  current_focus, focus_run, FocusCall, pushes, pops,
}
use gess.Focus.Agenda.{AgendaOps}
use gess.Focus.Stack.{focus_run-IsFocused, IsFocused}
use gess.Focus.Search.{next_focused_activation, has_focused_activation}
use gess.Focus.SearchLaws.{next_focused-search, outcome, search_frames}
use gess.Focus.Session.{Session, Revision, Contexts, focus_call, drain_queued_mutations, push, pop}
use gess.Focus.SessionLaws.{Leaves, focus_call-Leaves, focus_calls, drain-calls}

abbrev Pending : Type 0
Pending = List ModuleName

abbrev idle_agenda : Pending
idle_agenda = []

abbrev take_first : Pending → Pending × Option ModuleName
take_first [] = ([], none)
take_first (m ∷ ms) = (ms, some m)

unfoldable take_for : ModuleName → Pending → Pending × Option ModuleName
take_for m [] = ([], none)
take_for m (n ∷ ns) =
    let rest = take_for m ns in if n == m then (ns, some n) else (n ∷ rest.0, rest.1)

abbrev ops : AgendaOps Pending ModuleName
ops = record {
  next = take_first;
  next_for = take_for;
  has = λ s. (s, is_some (take_first s).1);
  has_for = λ m s. (s, is_some (take_for m s).1);
}

abbrev billing : ModuleName
billing = codes "billing"

abbrev audit : ModuleName
audit = codes "audit"

-- `billing` has the focus; `audit` and MAIN have activations.
abbrev busy : Driver Pending
busy = record (new_driver (main_module ∷ audit ∷ []) depth) {
  focus_stack = main_module ∷ audit ∷ billing ∷ [];
}

abbrev idle : Driver Pending
idle = record busy { agenda = [] }

next_focused-search_example :
    next_focused_activation ops false busy
    ≡ some (
        outcome ops false busy
          (search_frames ops false (billing ∷ audit ∷ main_module ∷ []) (main_module ∷ audit ∷ [])))
unfolding new_driver
next_focused-search_example = next_focused-search ops false busy

-- The frame of `billing` is popped, and `audit` gives its activation.
busy_next :
    next_focused_activation ops false busy
    ≡ some (
      record busy { agenda = main_module ∷ []; focus_stack = main_module ∷ audit ∷ [] },
      some audit,
    )
unfolding next_focused_activation take_for gess.Focus.Search.asks_all gess.Prelude.list_beq
    current_focus gess.Focus.frame new_driver pop_focus
busy_next = refl

other_focus : current_focus busy ≢ audit
unfolding current_focus gess.Focus.frame gess.Module.is_zero gess.Prelude.list_beq
    gess.Prelude.trim_space new_driver
other_focus e = ground (arith, (list_beq_iff (current_focus busy) audit).1 e)

focus_run-IsFocused_example :
    IsFocused (
      focus_run
        (new_driver idle_agenda depth)
        (pushes (codes " audit ") ∷ pushes audit ∷ pops ∷ []))
focus_run-IsFocused_example =
    focus_run-IsFocused idle_agenda depth (pushes (codes " audit ") ∷ pushes audit ∷ pops ∷ [])

abbrev plain : ModuleName → Module
plain m = record { name = m; description = []; auto_focus = none }

abbrev revision : Revision
revision = record {
  modules = (main_module, plain main_module) ∷ (billing, plain billing) ∷ (audit, plain audit) ∷ [];
  rules_by_revision_id =
      (codes "r1", record { module_of = audit; effective_auto_focus = true }) ∷ [];
  all_rules_in_main_module = false;
}

abbrev session : Session Pending
session = record {
  closed = false;
  revision = some revision;
  driver = busy;
  listener_dispatch_active = false;
  run_guard_held = false;
  mutate_held = false;
  lock_held = false;
  queue = [];
}

abbrev calm : Contexts
calm c = none

drain-calls_example :
    (drain_queued_mutations calm none (
      focus_calls calm
        (some 0)
        (record session { run_guard_held = true })
        (push audit ∷ pop ∷ pop ∷ []))).session
    ≡ record session {
      run_guard_held = true;
      driver =
          (focus_calls calm
            (some 0)
            (record session { run_guard_held = false })
            (push audit ∷ pop ∷ pop ∷ [])).driver;
    }
drain-calls_example =
    drain-calls calm (some 0) none session (push audit ∷ pop ∷ pop ∷ [])
      (refl, refl, refl, refl, refl) refl refl

focus_call-Leaves_example :
    Leaves
      (record session { lock_held = true })
      (focus_call calm (record session { lock_held = true }) none pop)
focus_call-Leaves_example = focus_call-Leaves calm (record session { lock_held = true }) none pop

abbrev changes : List (Change Text)
changes = record { kind = activated; rule_revision_id = codes "r1" } ∷ []
