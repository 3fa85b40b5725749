-- ===== src/Focus.antt =====
-- The focus stack of a session (internal/engine/session_agenda_driver.go, internal/engine/focus.go).
-- `focus_stack` runs from the bottom to the top, as the slice does.
pub mod Agenda
pub mod Stack
pub mod Search
pub mod SearchLaws
pub mod Session
pub mod SessionLaws
pub mod AutoFocus
mod Tests
use gess.Prelude.{
  ◌==◌, list_eq, nat_eq, if◌then◌else◌, Bool, true, false, not, ◌&&◌, Option, none, some, List, [],
  ◌∷◌, ◌++◌, last?, init,
}
use gess.Prelude.Assoc.{Assoc, lookup}
use gess.Module.{ModuleName, main_module, is_zero, normalize_module_name}

pub data Strategy : Type 0 where
  depth breadth : Strategy

-- `sessionAgendaDriver`, over the states `S` of an agenda.
pub record Driver (S : Type 0) : Type 0 where
  pub agenda : S
  pub strategy : Strategy
  pub initial_focus_stack : List ModuleName
  pub focus_stack : List ModuleName
  pub ready : Bool
  pub dirty : Bool

-- The name that a stored frame stands for.
unfoldable pub frame : ModuleName → ModuleName
unfolding is_zero
frame m = if is_zero m then main_module else m

-- A reset to an empty stack starts at MAIN.
abbrev pub or_main : List ModuleName → List ModuleName
or_main [] = main_module ∷ []
or_main (m ∷ ms) = m ∷ ms

pub data FocusCall : Type 0 where
  pushes : ModuleName → FocusCall
  pops clears resets : FocusCall

module _ {S : Type 0} where
  unfoldable pub new_driver : S → Strategy → Driver S
  new_driver agenda strategy = record {
    agenda = agenda;
    strategy = strategy;
    initial_focus_stack = main_module ∷ [];
    focus_stack = main_module ∷ [];
    ready = false;
    dirty = false;
  }

  unfoldable pub mark_ready : Driver S → Driver S
  mark_ready d = record d { ready = true; dirty = false }

  unfoldable pub mark_unready : Driver S → Driver S
  mark_unready d = record d { ready = false; dirty = false }

  unfoldable pub mark_dirty : Driver S → Driver S
  mark_dirty d = record d { ready = false; dirty = true }

  unfoldable pub is_ready : Driver S → Bool
  is_ready d = d.ready && not d.dirty

  unfoldable pub current_focus : Driver S → ModuleName
  current_focus d = elim (last? d.focus_stack) [ none ↦ main_module | some m ↦ frame m ]

  unfoldable pub push_focus : Driver S → ModuleName → Driver S
  unfolding normalize_module_name
  push_focus d module_name =
      let m = normalize_module_name module_name in
      if current_focus d == m then d else record d { focus_stack = d.focus_stack ++ m ∷ [] }

  unfoldable pub pop_focus : Driver S → Driver S × ModuleName
  pop_focus d = elim (last? d.focus_stack) [
    | none ↦ (d, main_module)
    | some m ↦ (record d { focus_stack = init d.focus_stack }, frame m)
  ]

  unfoldable pub clear_focus_stack : Driver S → Driver S
  clear_focus_stack d = record d { focus_stack = [] }

  unfoldable pub reset_focus_stack : Driver S → Driver S
  reset_focus_stack d = record d { focus_stack = or_main d.initial_focus_stack }

  -- The operations on the stack, for histories of calls.
  unfoldable pub focus_step : Driver S → FocusCall → Driver S
  unfolding push_focus pop_focus clear_focus_stack reset_focus_stack
  focus_step d (pushes m) = push_focus d m
  focus_step d pops = (pop_focus d).0
  focus_step d clears = clear_focus_stack d
  focus_step d resets = reset_focus_stack d

  unfoldable pub focus_run : Driver S → List FocusCall → Driver S
  focus_run d [] = d
  focus_run d (c ∷ cs) = focus_run (focus_step d c) cs

-- What `applyAutoFocus` reads of an agenda change and of a compiled rule.
pub data ChangeKind : Type 0 where
  activated deactivated : ChangeKind

pub record Change (R : Type 0) : Type 0 where
  pub kind : ChangeKind
  pub rule_revision_id : R

pub record Rule : Type 0 where
  pub module_of : ModuleName
  pub effective_auto_focus : Bool
