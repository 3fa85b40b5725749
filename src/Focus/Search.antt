-- ===== src/Focus/Search.antt =====
-- `nextFocusedActivation` and `hasFocusedActivation` of internal/engine/focus.go, over any agenda
-- of `Focus.Agenda`. `all_main` is `revision.allRulesInMainModule`. The agenda is never nil here:
-- a session creates one before it runs.
use gess.Prelude.{
  ◌==◌, list_eq, nat_eq, Bool, true, false, ◌&&◌, Option, none, some, List, [], ℕ, zero, suc,
  length, get_elem?,
}
use gess.Module.{ModuleName, main_module}
use gess.Focus.{Driver, frame, current_focus, pop_focus}
use gess.Focus.Agenda.{AgendaOps}

-- The frame that the scan looks at when `depth` frames are left.
unfoldable pub frame_at : List ModuleName → ℕ → ModuleName
unfolding frame
frame_at stack zero = main_module
frame_at stack (suc k) = elim (get_elem? stack k) [ none ↦ main_module | some m ↦ frame m ]

module _ {S A : Type 0} (o : AgendaOps S A) (all_main : Bool) where
  -- At MAIN, with every rule in MAIN, the agenda is asked as a whole.
  unfoldable pub asks_all : ModuleName → Bool
  asks_all m = (m == main_module) && all_main

  -- The loop of `nextFocusedActivation`, with fuel; `none` means that the fuel ran out.
  unfoldable pub next_loop : ℕ → Driver S → Option (Driver S × Option A)
  next_loop zero d = none
  next_loop (suc fuel) d =
      let m = current_focus d in
      elim (asks_all m) [
        | true ↦ some (record d { agenda = (o.next d.agenda).0 }, (o.next d.agenda).1)
        | false ↦
            let d' : Driver S = record d { agenda = (o.next_for m d.agenda).0 } in
            elim (o.next_for m d.agenda).1 [
              | some a ↦ some (d', some a)
              | none ↦ elim d.focus_stack [
                | [] ↦ some (d', none)
                | _ ↦ next_loop fuel (pop_focus d').0
              ]
            ]
      ]

  -- Each round but the last pops a frame.
  unfoldable pub next_focused_activation : Driver S → Option (Driver S × Option A)
  unfolding next_loop
  next_focused_activation d = next_loop (suc (length d.focus_stack)) d

  -- One round of the scan, at the frame `m`; `below` is the rest of the loop.
  unfoldable pub has_at : ModuleName → (Driver S → Driver S × Bool) → Driver S → Driver S × Bool
  has_at m below d = elim (asks_all m) [
    | true ↦ (record d { agenda = (o.has d.agenda).0 }, (o.has d.agenda).1)
    | false ↦
        let d' : Driver S = record d { agenda = (o.has_for m d.agenda).0 } in
        elim (o.has_for m d.agenda).1 [ true ↦ (d', true) | false ↦ below d' ]
  ]

  -- `depth` falls to 0, where the scan ends after MAIN; it pops nothing.
  unfoldable pub has_loop : ℕ → Driver S → Driver S × Bool
  unfolding has_at
  has_loop zero d = has_at main_module (λ d'. (d', false)) d
  has_loop (suc k) d = has_at (frame_at d.focus_stack (suc k)) (has_loop k) d

  unfoldable pub has_focused_activation : Driver S → Driver S × Bool
  unfolding has_loop
  has_focused_activation d = has_loop (length d.focus_stack) d
