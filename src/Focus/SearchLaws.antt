-- ===== src/Focus/SearchLaws.antt =====
-- The focus loops against a reference search of the frames, from the top down to MAIN.
use mathlib.Core.List.{reverse-cons}
use gess.Prelude.{
  ◌≡◌, refl, ap, ◌∙◌, sym, subst, Bool, true, false, Option, none, some, List, [], ◌∷◌, ◌++◌,
  reverse, reverse-reverse, suc, length, length-append, last?, init, last?-snoc, init-snoc, arith,
}
use gess.Module.{ModuleName, main_module}
use gess.Focus.{Driver, frame, current_focus, pop_focus}
use gess.Focus.Stack.{current-snoc}
use gess.Focus.Agenda.{AgendaOps}
use gess.Focus.Search.{asks_all, next_loop, next_focused_activation}

-- A search has left the agenda, and the frames that it did not pop, topmost first.
pub record Found (S A : Type 0) : Type 0 where
  pub agenda : S
  pub left : List ModuleName
  pub choice : Option A

pub length-reverse : (ms : List ModuleName) → length (reverse ms) ≡ length ms
length-reverse [] = refl
length-reverse (m ∷ ms) =
    omega
      (arith, ap length (reverse-cons m ms), length-append (reverse ms) (m ∷ []), length-reverse ms)

module _ {S A : Type 0} (o : AgendaOps S A) (all_main : Bool) where
  abbrev pub found_all : S → List ModuleName → Found S A
  found_all s left = record { agenda = (o.next s).0; left = left; choice = (o.next s).1 }

  abbrev pub found_for : ModuleName → S → List ModuleName → Found S A
  found_for m s left = record {
    agenda = (o.next_for m s).0;
    left = left;
    choice = (o.next_for m s).1;
  }

  -- The search at the frame `m`, with the frames `left` from it down.
  unfoldable pub search_at : ModuleName → List ModuleName → (S → Found S A) → S → Found S A
  search_at m left below s = elim (asks_all o all_main m) [
    | true ↦ found_all s left
    | false ↦ elim (o.next_for m s).1 [
      | some a ↦ found_for m s left
      | none ↦ below (o.next_for m s).0
    ]
  ]

  -- The first frame from the top whose module has an activation gives it; MAIN is below all frames.
  unfoldable pub search_frames : List ModuleName → S → Found S A
  search_frames [] s =
      search_at main_module [] (λ t. record { agenda = t; left = []; choice = none }) s
  search_frames (m ∷ ms) s = search_at (frame m) (m ∷ ms) (search_frames ms) s

  abbrev pub outcome : Driver S → Found S A → Driver S × Option A
  outcome d f = (record d { agenda = f.agenda; focus_stack = reverse f.left }, f.choice)

  snoc-cons :
      (xs : List ModuleName) (m : ModuleName)
      → (y : ModuleName) × (ys : List ModuleName) × (xs ++ m ∷ [] ≡ y ∷ ys)
  snoc-cons [] m = (m, [], refl)
  snoc-cons (x ∷ xs) m = (x, xs ++ m ∷ [], refl)

  pop-snoc :
      (d : Driver S) (xs : List ModuleName) (m : ModuleName)
      → d.focus_stack ≡ xs ++ m ∷ []
      → (pop_focus d).0 ≡ record d { focus_stack = xs }
  unfolding pop_focus
  pop-snoc d xs m e = ground (arith, ap last? e ∙ last?-snoc xs m, ap init e ∙ init-snoc xs m)

  next_loop-search :
      (ms : List ModuleName) (d : Driver S)
      → d.focus_stack ≡ reverse ms
      → next_loop o all_main (suc (length ms)) d ≡ some (outcome d (search_frames ms d.agenda))
  unfolding next_loop search_frames search_at current_focus
  next_loop-search [] d e = ground arith
  next_loop-search (m ∷ ms) d e =
      let top : d.focus_stack ≡ reverse ms ++ m ∷ [] = e ∙ reverse-cons m ms in
      let (y, ys, cons) = snoc-cons (reverse ms) m in
      let rest : Driver S = record d { agenda = (o.next_for (frame m) d.agenda).0 } in
      ground (
        arith,
        current-snoc d (reverse ms) m top,
        top ∙ cons,
        pop-snoc rest (reverse ms) m top,
        next_loop-search ms (record rest { focus_stack = reverse ms }) refl,
      )

  -- `nextFocusedActivation` ends within its fuel, chooses what the search of the frames from the
  -- top down to MAIN finds, and pops exactly the frames that the search passed.
  pub next_focused-search :
      (d : Driver S)
      → next_focused_activation o all_main d
        ≡ some (outcome d (search_frames (reverse d.focus_stack) d.agenda))
  unfolding next_focused_activation
  next_focused-search d =
      subst
        (λ n.
          next_loop o all_main (suc n) d
          ≡ some (outcome d (search_frames (reverse d.focus_stack) d.agenda)))
        (length-reverse d.focus_stack)
        (next_loop-search (reverse d.focus_stack) d (sym (reverse-reverse d.focus_stack)))
