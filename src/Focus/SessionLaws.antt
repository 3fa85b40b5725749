-- ===== src/Focus/SessionLaws.antt =====
-- The guards of the focus calls: errors change nothing, locks are given back, and a call that is
-- queued during a run does at the next drain what it would have done at once.
use gess.Prelude.{
  ◌≡◌, refl, ap, ◌∙◌, true, false, Option, none, List, [], ◌∷◌, ◌++◌, append_assoc, append-nil, ℕ,
  subst, arith, Bool-cases, Option-cases, inl, inr, ◌⊎◌, sym,
}
use gess.Prelude.Result.{Result, ok, err, Error, concurrency_misuse, closed_session}
use gess.Focus.{Driver}
use gess.Focus.Session.{
  Session, Revision, FocusRequest, Contexts, Queued, Outcome, returned, waiting, context_error,
  apply_request, begin_mutation, end_mutation, begin_mutation_for_origin, enqueue_mutation,
  pop_queued_mutations, submit, check_request, focus_call, drain_requests, drain_queued_mutations,
}

accepted : Option Revision → List FocusRequest → List FocusRequest
unfolding check_request
accepted v [] = []
accepted v (r ∷ rs) = elim (check_request v r) [
  | ok r' ↦ r' ∷ accepted v rs
  | err e ↦ accepted v rs
]

checked :
    (v : Option Revision) (r : FocusRequest)
    → ((r' : FocusRequest) × (check_request v r ≡ ok r'))
      ⊎ ((e : Error) × (check_request v r ≡ err e))
checked v r = go (check_request v r) refl
  where
    go :
        (x : Result FocusRequest)
        → check_request v r ≡ x
        → ((r' : FocusRequest) × (check_request v r ≡ ok r'))
          ⊎ ((e : Error) × (check_request v r ≡ err e))
    go (ok r') p = inl (r', p)
    go (err e) p = inr (e, p)

queued : Option ℕ → List FocusRequest → List Queued
queued context [] = []
queued context (r ∷ rs) = record { context = context; request = r } ∷ queued context rs

module _ {S : Type 0} where
  abbrev pub locked : Session S → Session S
  locked s = record s { mutate_held = true; lock_held = true }

  -- A failed attempt gives back the token that it took.
  begin-refused :
      (s : Session S) → s.mutate_held ≡ false → s.lock_held ≡ true → begin_mutation s ≡ (s, false)
  unfolding begin_mutation
  begin-refused s m l = ground (arith, ap (λ h. record s { mutate_held = h }) (sym m))

  pub begin_mutation-cases :
      (s : Session S)
      → (begin_mutation s ≡ (s, false))
        ⊎ ((s.mutate_held ≡ false) × (s.lock_held ≡ false) × (begin_mutation s ≡ (locked s, true)))
  begin_mutation-cases s = elim (Bool-cases s.mutate_held) [
    | inl busy ↦ inl (unfold begin_mutation in ground arith)
    | inr free ↦ elim (Bool-cases s.lock_held) [
      | inl busy ↦ inl (begin-refused s free busy)
      | inr idle ↦ inr (free, idle, unfold begin_mutation in ground arith)
    ]
  ]

  origin-cases :
      (s : Session S)
      → (begin_mutation_for_origin s ≡ (s, false))
        ⊎ ((s.mutate_held ≡ false)
            × (s.lock_held ≡ false)
            × (begin_mutation_for_origin s ≡ (locked s, true)))
  origin-cases s = elim (Bool-cases s.run_guard_held) [
    | inl running ↦ inl (unfold begin_mutation_for_origin in ground arith)
    | inr idle ↦
        let same : begin_mutation_for_origin s ≡ begin_mutation s =
          unfold begin_mutation_for_origin in ground arith in
        elim (begin_mutation-cases s) [
          | inl e ↦ inl (same ∙ e)
          | inr (m, l, e) ↦ inr (m, l, same ∙ e)
        ]
  ]

  -- What a call may change: nothing with an error, the driver alone with an answer, and the queue
  -- alone where it waits.
  abbrev pub Leaves : Session S → Session S × Outcome → Type 0
  Leaves s (s', returned (err e)) = s' ≡ s
  Leaves s (s', returned (ok reply)) = s' ≡ record s { driver = s'.driver }
  Leaves s (s', waiting) = s' ≡ record s { queue = s'.queue }

  released :
      (s : Session S) (d : Driver S)
      → s.mutate_held ≡ false
      → s.lock_held ≡ false
      → end_mutation (record (locked s) { driver = d }) ≡ record s { driver = d }
  unfolding end_mutation
  released s d m l = ground arith

  submit-Leaves :
      (s : Session S) (context : Option ℕ) (r : FocusRequest) → Leaves s (submit s context r)
  submit-Leaves s context r = elim (Bool-cases s.run_guard_held) [
    | inr idle ↦ elim (origin-cases s) [
      | inl e ↦ subst (Leaves s) (sym (refused_submit idle e)) refl
      | inr (m, l, e) ↦ subst (Leaves s) (sym (locked_submit idle m l e)) refl
    ]
    | inl held ↦ elim (Bool-cases s.listener_dispatch_active) [
      | inl busy ↦ subst (Leaves s) (sym (listener_submit held busy)) refl
      | inr quiet ↦ subst (Leaves s) (sym (queued_submit held quiet)) refl
    ]
  ]
    where
      queued_submit :
          s.run_guard_held ≡ true
          → s.listener_dispatch_active ≡ false
          → submit s context r ≡ (
            record s { queue = s.queue ++ record { context = context; request = r } ∷ [] },
            waiting,
          )
      queued_submit g q = unfold submit enqueue_mutation in ground arith

      listener_submit :
          s.run_guard_held ≡ true
          → s.listener_dispatch_active ≡ true
          → submit s context r ≡ (s, returned (err concurrency_misuse))
      listener_submit g q = unfold submit enqueue_mutation begin_mutation_for_origin in ground arith

      refused_submit :
          s.run_guard_held ≡ false
          → begin_mutation_for_origin s ≡ (s, false)
          → submit s context r ≡ (s, returned (err concurrency_misuse))
      refused_submit g e = unfold submit enqueue_mutation in ground (arith, e)

      locked_submit :
          s.run_guard_held ≡ false
          → s.mutate_held ≡ false
          → s.lock_held ≡ false
          → begin_mutation_for_origin s ≡ (locked s, true)
          → submit s context r ≡ (
            record s { driver = (apply_request s.driver r).0 },
            returned (ok (apply_request s.driver r).1),
          )
      locked_submit g m l e =
          unfold submit enqueue_mutation in
          ground (arith, e, released s (apply_request s.driver r).0 m l)

  -- Whatever the state of the guards, a focus call that returns an error leaves the whole session
  -- as it was, the locks included; one that is answered changes the driver and nothing else; one
  -- that waits for the end of a run changes the queue and nothing else.
  pub focus_call-Leaves :
      (errs : Contexts) (s : Session S) (context : Option ℕ) (r : FocusRequest)
      → Leaves s (focus_call errs s context r)
  focus_call-Leaves errs s context r = elim (Bool-cases s.closed) [
    | inl shut ↦ refusal closed_session (unfold focus_call in ground (arith, shut))
    | inr up ↦ elim (Option-cases (context_error errs context)) [
      | inr (e, gone) ↦ refusal e (unfold focus_call in ground (arith, up, gone))
      | inl live ↦ elim (checked s.revision r) [
        | inr (e, bad) ↦ refusal e (unfold focus_call in ground (arith, up, live, bad))
        | inl (r', good) ↦
            let submits : focus_call errs s context r ≡ submit s context r' =
              unfold focus_call in ground (arith, up, live, good) in
            subst (Leaves s) (sym submits) (submit-Leaves s context r')
      ]
    ]
  ]
    where
      refusal :
          (e : Error)
          → focus_call errs s context r ≡ (s, returned (err e))
          → Leaves s (focus_call errs s context r)
      refusal e h = subst (Leaves s) (sym h) refl

  -- A history of focus calls from one goroutine.
  unfoldable pub focus_calls : Contexts → Option ℕ → Session S → List FocusRequest → Session S
  unfolding focus_call
  focus_calls errs context s [] = s
  focus_calls errs context s (r ∷ rs) = focus_calls errs context (focus_call errs s context r).0 rs

  apply_all : Driver S → List FocusRequest → Driver S
  apply_all d [] = d
  apply_all d (r ∷ rs) = apply_all (apply_request d r).0 rs

  -- A session with no error to report, whose locks are free.
  abbrev pub IsOpen : Contexts → Option ℕ → Session S → Type 0
  IsOpen errs context s =
      (s.closed ≡ false)
      × (context_error errs context ≡ none)
      × (s.listener_dispatch_active ≡ false)
      × (s.mutate_held ≡ false)
      × (s.lock_held ≡ false)

  module _ (errs : Contexts) (context : Option ℕ) where
    refused :
        (s : Session S) (r : FocusRequest) {e : Error}
        → IsOpen errs context s
        → check_request s.revision r ≡ err e
        → (focus_call errs s context r).0 ≡ s
    unfolding focus_call
    refused s r o h = ground arith

    queues :
        (s : Session S) (r : FocusRequest) {r' : FocusRequest}
        → IsOpen errs context s
        → s.run_guard_held ≡ true
        → check_request s.revision r ≡ ok r'
        → (focus_call errs s context r).0
          ≡ record s { queue = s.queue ++ record { context = context; request = r' } ∷ [] }
    unfolding focus_call submit enqueue_mutation
    queues s r o g h = ground arith

    mutates :
        (s : Session S) (r : FocusRequest) {r' : FocusRequest}
        → IsOpen errs context s
        → s.run_guard_held ≡ false
        → check_request s.revision r ≡ ok r'
        → (focus_call errs s context r).0 ≡ record s { driver = (apply_request s.driver r').0 }
    unfolding focus_call submit enqueue_mutation begin_mutation_for_origin begin_mutation
        end_mutation
    mutates s r o g h = ground arith

    calls-running :
        (s : Session S) (rs : List FocusRequest)
        → IsOpen errs context s
        → s.run_guard_held ≡ true
        → focus_calls errs context s rs
          ≡ record s { queue = s.queue ++ queued context (accepted s.revision rs) }
    unfolding focus_calls accepted queued
    calls-running s [] o g = ground (arith, append-nil s.queue)
    calls-running s (r ∷ rs) o g = elim (checked s.revision r) [
      | inl (r', e) ↦
          let q : Queued = record { context = context; request = r' } in
          let s' : Session S = record s { queue = s.queue ++ q ∷ [] } in
          let more = queued context (accepted s.revision rs) in
          rw (queues s r o g e, e, accepted)
            (calls-running s' rs o g
              ∙ ap (λ l. record s { queue = l }) (append_assoc s.queue (q ∷ []) more))
      | inr (x, e) ↦ rw (refused s r o e, e, accepted) (calls-running s rs o g)
    ]

    calls-idle :
        (s : Session S) (rs : List FocusRequest)
        → IsOpen errs context s
        → s.run_guard_held ≡ false
        → focus_calls errs context s rs
          ≡ record s { driver = apply_all s.driver (accepted s.revision rs) }
    unfolding focus_calls accepted apply_all
    calls-idle s [] o g = refl
    calls-idle s (r ∷ rs) o g = elim (checked s.revision r) [
      | inl (r', e) ↦
          let s' : Session S = record s { driver = (apply_request s.driver r').0 } in
          rw (mutates s r o g e, e, accepted) (calls-idle s' rs o g)
      | inr (x, e) ↦ rw (refused s r o e, e, accepted) (calls-idle s rs o g)
    ]

    drain-step :
        (drainer : Option ℕ) (s : Session S) (r : FocusRequest) (rs : List FocusRequest)
        → IsOpen errs context s
        → context_error errs drainer ≡ none
        → (drain_requests errs drainer (queued context (r ∷ rs)) s).session
          ≡ (drain_requests errs drainer
              (queued context rs)
              (record s { driver = (apply_request s.driver r).0 })).session
    unfolding drain_requests queued begin_mutation end_mutation
    drain-step drainer s r rs o n = ground arith

    drain-queued :
        (drainer : Option ℕ) (s : Session S) (rs : List FocusRequest)
        → IsOpen errs context s
        → context_error errs drainer ≡ none
        → (drain_requests errs drainer (queued context rs) s).session
          ≡ record s { driver = apply_all s.driver rs }
    drain-queued drainer s [] o n = unfold drain_requests queued apply_all in refl
    drain-queued drainer s (r ∷ rs) o n =
        let s' : Session S = record s { driver = (apply_request s.driver r).0 } in
        drain-step drainer s r rs o n ∙ drain-queued drainer s' rs o n ∙ unfold apply_all in refl

    -- On an open session with free locks and an empty queue, while neither the caller nor the
    -- drainer has a context error: focus calls made during a run and applied by the next drain
    -- leave the driver that the same calls would have left on an idle session, the queue empty and
    -- the locks free.
    pub drain-calls :
        (drainer : Option ℕ) (s : Session S) (rs : List FocusRequest)
        → IsOpen errs context s
        → s.queue ≡ []
        → context_error errs drainer ≡ none
        → let running : Session S = record s { run_guard_held = true } in
          let idle : Session S = record s { run_guard_held = false } in
          (drain_queued_mutations errs drainer (focus_calls errs context running rs)).session
          ≡ record running { driver = (focus_calls errs context idle rs).driver }
    unfolding drain_queued_mutations pop_queued_mutations
    drain-calls drainer s rs o empty n =
        let running : Session S = record s { run_guard_held = true } in
        let idle : Session S = record s { run_guard_held = false } in
        let requests = accepted s.revision rs in
        rw (calls-running running rs o refl, calls-idle idle rs o refl)
          (rw empty (drain-queued drainer (record running { queue = [] }) requests o n))
