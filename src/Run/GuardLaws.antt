-- ===== src/Run/GuardLaws.antt =====
-- What `Run` leaves of the guards.
use gess.Prelude.{
  if◌then◌else◌, Bool, Bool-cases, Option-cases, true, false, ◌≡◌, refl, ◌⊎◌, ap, ◌∙◌, sym, subst,
  inl, inr, ℕ, Option, none, some, arith,
}
use gess.Prelude.Result.{Error, concurrency_misuse, Result, ok, err}
use gess.Focus.Session.{begin_mutation, end_mutation}
use gess.Focus.SessionLaws.{begin_mutation-cases}
use gess.Run.{RunStatus, run_concurrency_misuse}
use gess.Run.Config.{RunConfig, new_run_config}
use gess.Run.Loop.{Stop}
use gess.Run.Guards.{
  RunSession, RunCall, refuse, with_session, begin_run, end_run, enter_run, leave_cascade,
  leave_run, run_with_mutation_released, release_if, run_locked, run_guarded, run, guards,
}

Result-cases {ℓ} :
    {C : Type ℓ} (r : Result C) → ((e : Error) × (r ≡ err e)) ⊎ ((c : C) × (r ≡ ok c))
Result-cases (err e) = inl (e, refl)
Result-cases (ok c) = inr (c, refl)

module _ {S A B : Type 0}
    (agenda_loop : RunConfig → ℕ → RunSession S A B → Option (Stop (RunSession S A B))) where
  -- The agenda loop ran from `entry` to `z`.
  pub record Ran (x : RunSession S A B) (e : Stop (RunSession S A B)) : Type 0 where
    pub config : RunConfig
    pub run_id : ℕ
    pub entry : RunSession S A B
    pub z : Stop (RunSession S A B)
    pub ran : agenda_loop config run_id entry ≡ some z
    pub free_before : guards x ≡ (false, false, false)
    pub guarded : guards entry ≡ (true, false, false)
    pub after : guards e.state ≡ (false, z.state.session.mutate_held, z.state.session.lock_held)
    pub taken :
        ((e.error ≡ z.error)
          × (z.state.session.mutate_held ≡ false)
          × (z.state.session.lock_held ≡ false))
        ⊎ ((e.error ≡ some concurrency_misuse)
            × ((z.state.session.mutate_held ≡ true) ⊎ (z.state.session.lock_held ≡ true)))

  abbrev pub Restores : RunSession S A B → Option (Stop (RunSession S A B)) → Type 0
  Restores x none =
      (config : RunConfig) × (run_id : ℕ) × (y : RunSession S A B) × (agenda_loop config run_id y
        ≡ none)
  Restores x (some e) = (guards e.state ≡ guards x) ⊎ Ran x e

  abbrev entry_of : (RunSession S A B → B) → RunSession S A B → RunSession S A B
  entry_of budget x = enter_run (budget x) (with_session (begin_run x.session).0 x)

  abbrev closing : Option B → Stop (RunSession S A B) → Stop (RunSession S A B)
  closing cascade z =
      let (w, held) = leave_run z.state in
      release_if held (record z {
        state = leave_cascade cascade w;
        error = if held then z.error else some concurrency_misuse;
      })

  left-guards :
      (cascade : Option B) (z : Stop (RunSession S A B))
      → (guards (closing cascade z).state
          ≡ (false, z.state.session.mutate_held, z.state.session.lock_held))
        × ((((closing cascade z).error ≡ z.error)
              × (z.state.session.mutate_held ≡ false)
              × (z.state.session.lock_held ≡ false))
            ⊎ (((closing cascade z).error ≡ some concurrency_misuse)
                × ((z.state.session.mutate_held ≡ true) ⊎ (z.state.session.lock_held ≡ true))))
  unfolding begin_mutation end_mutation end_run
  left-guards none z = ground arith
  left-guards (some b) z = ground arith

  -- The call as `Run` ends it, in the locked session `x`.
  abbrev released :
      (RunSession S A B → B) → RunConfig → RunSession S A B → Option (Stop (RunSession S A B))
  released budget config x = elim (run_with_mutation_released agenda_loop budget config x) [
    | none ↦ none
    | some (ended, held) ↦ some (release_if held ended)
  ]

  module _ (budget : RunSession S A B → B) (config : RunConfig) (y : RunSession S A B) where
    -- The loop's result, in the session that it is entered in.
    abbrev looped : Option (Stop (RunSession S A B))
    looped = agenda_loop config (entry_of budget y).next_run_sequence (entry_of budget y)

    released-held :
        y.session.run_guard_held ≡ true
        → released budget config y
          ≡ some (
              refuse run_concurrency_misuse concurrency_misuse
                (with_session (end_mutation y.session) y))
    unfolding run_with_mutation_released begin_run
    released-held held = ground (arith, held)

    released-none :
        y.session.run_guard_held ≡ false → looped ≡ none → released budget config y ≡ none
    unfolding run_with_mutation_released begin_run
    released-none free dry = ground (arith, free, dry)

    released-some :
        (z : Stop (RunSession S A B))
        → y.session.run_guard_held ≡ false
        → looped ≡ some z
        → released budget config y ≡ some (closing y.demand_cascade z)
    unfolding run_with_mutation_released begin_run
    released-some z free ran = ground (arith, free, ran)

    entered : y.session.run_guard_held ≡ false → guards (entry_of budget y) ≡ (true, false, false)
    unfolding begin_run end_mutation
    entered free = ground (arith, free)

    released-Restores :
        (x : RunSession S A B)
        → guards x ≡ (y.session.run_guard_held, false, false)
        → Restores x (released budget config y)
    released-Restores x g = elim (Bool-cases y.session.run_guard_held) [
      | inl held ↦
          subst (Restores x) (sym (released-held held)) (inl (unfold end_mutation in sym g))
      | inr free ↦ elim (Option-cases looped) [
        | inl dry ↦
            subst (Restores x) (sym (released-none free dry))
              (config, (entry_of budget y).next_run_sequence, entry_of budget y, dry)
        | inr (z, ran) ↦
            let (after, taken) = left-guards y.demand_cascade z in
            subst (Restores x) (sym (released-some z free ran)) (
              inr (record {
                config = config;
                run_id = (entry_of budget y).next_run_sequence;
                entry = entry_of budget y;
                z = z;
                ran = ran;
                free_before = g ∙ ap (λ (b : Bool). (b, false, false)) free;
                guarded = entered free;
                after = after;
                taken = taken;
              }))
      ]
    ]

  refused-guards :
      (x y : RunSession S A B) (status : RunStatus) (e : Error)
      → guards x ≡ (y.session.run_guard_held, false, false)
      → Restores x (some (refuse status e (with_session (end_mutation y.session) y)))
  refused-guards x y status e g = inl (unfold end_mutation in sym g)

  run_locked-Restores :
      (budget : RunSession S A B → B) (call : RunCall) (config : RunConfig) (x y : RunSession S A B)
      → guards x ≡ (y.session.run_guard_held, false, false)
      → Restores x (run_locked agenda_loop budget call config y)
  unfolding run_locked
  run_locked-Restores budget call config x y g = elim (Bool-cases call.closed_meanwhile) [
    | inl shut ↦ rw (run_locked, shut) (refused-guards x y _ _ g)
    | inr up ↦ elim (Option-cases call.context_after) [
      | inr (e, gone) ↦ rw (run_locked, up, gone) (refused-guards x y _ _ g)
      | inl alive ↦ elim (Option-cases y.session.revision) [
        | inl bare ↦ rw (run_locked, up, alive, bare) (refused-guards x y _ _ g)
        | inr (r, rules) ↦ rw (run_locked, up, alive, rules) (released-Restores budget config y x g)
      ]
    ]
  ]

  run_guarded-Restores :
      (budget : RunSession S A B → B) (call : RunCall) (config : RunConfig) (x : RunSession S A B)
      → Restores x (run_guarded agenda_loop budget call config x)
  unfolding run_guarded
  run_guarded-Restores budget call config x = elim (begin_mutation-cases x.session) [
    | inl e ↦ rw (ap (λ r. r.1) e, run_guarded) (inl (ap (λ r. guards (with_session r.0 x)) e))
    | inr (m, l, e) ↦
        rw (ap (λ r. r.1) e, run_guarded)
          (run_locked-Restores budget call config x (with_session (begin_mutation x.session).0 x)
            (cc (m, l, ap (λ r. r.0.run_guard_held) e)))
  ]

  -- What `Run` leaves of the run guard and of the two tokens of the mutation lock. It has no result
  -- only where the agenda loop has none. Otherwise either all three are as before the call, or the
  -- agenda loop was entered from a session that was free of all three, with the run guard taken and
  -- the mutation lock free: then `Run` has given back the run guard, each mutation token is as the
  -- loop left it, and the error is the loop's where the loop left neither token taken, and
  -- concurrency misuse where it left one taken.
  pub run-Restores :
      (budget : RunSession S A B → B) (call : RunCall) (x : RunSession S A B)
      → Restores x (run agenda_loop budget call x)
  unfolding run
  run-Restores budget call x = elim (Bool-cases x.session.closed) [
    | inl shut ↦ rw (run, shut) (inl refl)
    | inr up ↦ elim (Result-cases (new_run_config call.options)) [
      | inl (e, bad) ↦ rw (run, up, bad) (inl refl)
      | inr (config, good) ↦ elim (Option-cases call.context_before) [
        | inr (e, gone) ↦ rw (run, up, good, gone) (inl refl)
        | inl alive ↦
            let begun : run agenda_loop budget call x
                ≡ run_guarded agenda_loop budget call config x =
              ground (arith, up, good, alive) in
            subst (Restores x) (sym begun) (run_guarded-Restores budget call config x)
      ]
    ]
  ]
