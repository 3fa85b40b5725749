-- ===== src/Focus/Stack.antt =====
-- The focus stack: what each operation does to the current focus, and the shape of the stack.
use gess.Prelude.{
  ◌≡◌, refl, ap, ◌∙◌, ◌≢◌, ◌==◌, list_eq, nat_eq, list_beq_iff, false, some, List, [], ◌∷◌, ◌++◌,
  last?, init, last?-snoc, init-snoc, All, All-append, arith, inl, inr, Bool-cases,
}
use gess.Module.{ModuleName, normalize_module_name}
use gess.Module.Names.{is_zero-normalize, normalize-normalize, main-normal}
use gess.Focus.{
  Driver, frame, current_focus, push_focus, pop_focus, clear_focus_stack, reset_focus_stack,
  Strategy, new_driver, or_main, FocusCall, pushes, pops, clears, resets, focus_step, focus_run,
}

frame-normalize : (m : ModuleName) → frame (normalize_module_name m) ≡ normalize_module_name m
unfolding frame
frame-normalize m = rw (is_zero-normalize m)

-- No frame repeats the one below it.
abbrev pub Alternates : List ModuleName → Type 0
Alternates [] = Unit {0}
Alternates (m ∷ []) = Unit {0}
Alternates (m ∷ (n ∷ ms)) = (m ≢ n) × Alternates (n ∷ ms)

abbrev pub IsNormal : ModuleName → Type 0
IsNormal m = normalize_module_name m ≡ m

Alternates-snoc :
    (ms : List ModuleName) (m : ModuleName)
    → Alternates ms
    → last? ms ≢ some m
    → Alternates (ms ++ m ∷ [])
Alternates-snoc [] m h k = tt
Alternates-snoc (x ∷ []) m h k = (λ e. k (ap some e), tt)
Alternates-snoc (x ∷ (y ∷ ms)) m h k = (h.0, Alternates-snoc (y ∷ ms) m h.1 k)

Alternates-init : (ms : List ModuleName) → Alternates ms → Alternates (init ms)
Alternates-init [] h = tt
Alternates-init (x ∷ []) h = tt
Alternates-init (x ∷ (y ∷ [])) h = tt
Alternates-init (x ∷ (y ∷ (z ∷ ms))) h = (h.0, Alternates-init (y ∷ (z ∷ ms)) h.1)

All-init : (ms : List ModuleName) → All IsNormal ms → All IsNormal (init ms)
All-init [] h = tt
All-init (x ∷ []) h = tt
All-init (x ∷ (y ∷ ms)) h = (h.0, All-init (y ∷ ms) h.1)

or_main-IsNormal : (ms : List ModuleName) → All IsNormal ms → All IsNormal (or_main ms)
or_main-IsNormal [] h = (main-normal, tt)
or_main-IsNormal (m ∷ ms) h = h

or_main-Alternates : (ms : List ModuleName) → Alternates ms → Alternates (or_main ms)
or_main-Alternates [] h = tt
or_main-Alternates (m ∷ ms) h = h

module _ {S : Type 0} where
  pub current-snoc :
      (d : Driver S) (ms : List ModuleName) (m : ModuleName)
      → d.focus_stack ≡ ms ++ m ∷ []
      → current_focus d ≡ frame m
  unfolding current_focus
  current-snoc d ms m e = rw (e, last?-snoc ms m, current_focus)

  -- After a push the pushed module, in normal form, is the current focus.
  pub current-push :
      (d : Driver S) (m : ModuleName) → current_focus (push_focus d m) ≡ normalize_module_name m
  unfolding push_focus
  current-push d m = elim (Bool-cases (current_focus d == normalize_module_name m)) [
    | inl same ↦ rw (same, push_focus) ((list_beq_iff _ _).0 same)
    | inr new ↦
        rw (new, push_focus)
          (current-snoc _ d.focus_stack (normalize_module_name m) refl ∙ frame-normalize m)
  ]

  -- A pop undoes a push that changed the focus, and returns the module that was pushed.
  pub pop-push :
      (d : Driver S) (m : ModuleName)
      → current_focus d ≢ normalize_module_name m
      → pop_focus (push_focus d m) ≡ (d, normalize_module_name m)
  unfolding push_focus pop_focus
  pop-push d m h = elim (Bool-cases (current_focus d == normalize_module_name m)) [
    | inl same ↦ absurd (h ((list_beq_iff _ _).0 same))
    | inr new ↦
        rw (new, push_focus)
          (rw (
            last?-snoc d.focus_stack (normalize_module_name m),
            pop_focus,
            init-snoc d.focus_stack (normalize_module_name m),
            frame-normalize m,
          ))
  ]

  -- The frames are normal, and none repeats the one below it; so for the stack of a reset.
  pub record IsFocused (d : Driver S) : Type 0 where
    pub normal : All IsNormal d.focus_stack
    pub alternates : Alternates d.focus_stack
    pub initial_normal : All IsNormal d.initial_focus_stack
    pub initial_alternates : Alternates d.initial_focus_stack

  not_on_top :
      (d : Driver S) (m : ModuleName)
      → (current_focus d == normalize_module_name m) ≡ false
      → last? d.focus_stack ≢ some (normalize_module_name m)
  unfolding current_focus
  not_on_top d m h e = true≢false
    where
      top : current_focus d ≡ normalize_module_name m
      top = rw (e, current_focus) (frame-normalize m)

      true≢false : ⊥
      true≢false = cc (h, (list_beq_iff (current_focus d) (normalize_module_name m)).1 top)

  push-IsFocused : (d : Driver S) (m : ModuleName) → IsFocused d → IsFocused (push_focus d m)
  unfolding push_focus
  push-IsFocused d m v = elim (Bool-cases (current_focus d == normalize_module_name m)) [
    | inl same ↦ rw (same, push_focus) v
    | inr new ↦
        rw (new, push_focus)
          (record {
            normal = All-append IsNormal d.focus_stack _ v.normal (normalize-normalize m, tt);
            alternates = Alternates-snoc d.focus_stack _ v.alternates (not_on_top d m new);
            initial_normal = v.initial_normal;
            initial_alternates = v.initial_alternates;
          })
  ]

  pop-IsFocused : (d : Driver S) → IsFocused d → IsFocused (pop_focus d).0
  unfolding pop_focus
  pop-IsFocused d v = ground (arith, All-init d.focus_stack, Alternates-init d.focus_stack)

  reset-IsFocused : (d : Driver S) → IsFocused d → IsFocused (reset_focus_stack d)
  unfolding reset_focus_stack
  reset-IsFocused d v = record {
    normal = or_main-IsNormal d.initial_focus_stack v.initial_normal;
    alternates = or_main-Alternates d.initial_focus_stack v.initial_alternates;
    initial_normal = v.initial_normal;
    initial_alternates = v.initial_alternates;
  }

  focus_step-IsFocused : (d : Driver S) (c : FocusCall) → IsFocused d → IsFocused (focus_step d c)
  unfolding focus_step clear_focus_stack
  focus_step-IsFocused d (pushes m) v = push-IsFocused d m v
  focus_step-IsFocused d pops v = pop-IsFocused d v
  focus_step-IsFocused d clears v = record {
    normal = tt;
    alternates = tt;
    initial_normal = v.initial_normal;
    initial_alternates = v.initial_alternates;
  }
  focus_step-IsFocused d resets v = reset-IsFocused d v

  focus_run_keeps : (d : Driver S) (cs : List FocusCall) → IsFocused d → IsFocused (focus_run d cs)
  unfolding focus_run
  focus_run_keeps d [] v = v
  focus_run_keeps d (c ∷ cs) v = focus_run_keeps (focus_step d c) cs (focus_step-IsFocused d c v)

  -- After any history of pushes, pops, clears and resets on a new driver, every frame of the
  -- focus stack is a normal module name and differs from the frame below it.
  pub focus_run-IsFocused :
      (agenda : S) (strategy : Strategy) (cs : List FocusCall)
      → IsFocused (focus_run (new_driver agenda strategy) cs)
  unfolding new_driver
  focus_run-IsFocused agenda strategy cs = focus_run_keeps _ cs (record {
    normal = (main-normal, tt);
    alternates = tt;
    initial_normal = (main-normal, tt);
    initial_alternates = tt;
  })
