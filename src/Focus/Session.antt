-- ===== src/Focus/Session.antt =====
-- The focus calls of a session (internal/engine/focus.go), with the guards that they share with
-- every other mutation (`beginMutation` and the mutation queue of internal/engine/session.go).
-- The channels `mu.mutate`, `mu.lock` and `runGuard` hold one token each, so each is a Bool. A
-- context is an index, and `errs` says what its `Err()` returns at the time of the call. The
-- request of a goroutine that waits for a run is in the queue; no request arrives during a drain.
use gess.Prelude.{
  if◌then◌else◌, Bool, true, false, not, ◌&&◌, Option, none, some, List, [], ◌∷◌, ◌++◌, ℕ, Text,
  list_eq, nat_eq, is_some,
}
use gess.Prelude.Result.{
  Result, ok, err, Error, closed_session, invalid_ruleset, concurrency_misuse, validation,
  unknown_module,
}
use gess.Prelude.Assoc.{Assoc, lookup}
use gess.Module.{Module, ModuleName, normalize_module_name}
use gess.Focus.{
  Driver, push_focus, pop_focus, clear_focus_stack, Rule, Change, activated, deactivated,
}

pub record Revision : Type 0 where
  pub modules : Assoc ModuleName Module
  pub rules_by_revision_id : Assoc Text Rule
  pub all_rules_in_main_module : Bool

pub data FocusRequest : Type 0 where
  push : ModuleName → FocusRequest
  pop clear : FocusRequest

-- `focusMutationResult{}`, or the module that a pop returns.
pub data Reply : Type 0 where
  changed : Reply
  popped : ModuleName → Reply

abbrev pub Contexts : Type 0
Contexts = ℕ → Option Error

pub record Queued : Type 0 where
  pub context : Option ℕ
  pub request : FocusRequest

pub record Session (S : Type 0) : Type 0 where
  pub closed : Bool
  pub revision : Option Revision
  pub driver : Driver S
  pub listener_dispatch_active : Bool
  pub run_guard_held : Bool
  pub mutate_held : Bool
  pub lock_held : Bool
  pub queue : List Queued

pub data Outcome : Type 0 where
  returned : Result Reply → Outcome
  waiting : Outcome

-- `ctx.Err()`, where a nil context is the background.
abbrev pub context_error : Contexts → Option ℕ → Option Error
context_error errs none = none
context_error errs (some c) = errs c

-- What a drain has done: the session, the answers in order, and its own error.
pub record DrainResult (S : Type 0) : Type 0 where
  pub session : Session S
  pub answers : List (Result Reply)
  pub stopped : Option Error

-- The requests that are left when a drain stops: each has its own context's error, or the drain's.
unfoldable pub fail_requests : Contexts → Error → List Queued → List (Result Reply)
fail_requests errs e [] = []
fail_requests errs e (q ∷ qs) = elim (context_error errs q.context) [
  | some own ↦ err own ∷ fail_requests errs e qs
  | none ↦ err e ∷ fail_requests errs e qs
]

-- `validateFocusModule`, of the session's revision.
unfoldable pub validate_focus_module : Option Revision → ModuleName → Result ModuleName
unfolding normalize_module_name lookup
validate_focus_module revision module_name = elim revision [
  | none ↦ err invalid_ruleset
  | some r ↦
      let normalized = normalize_module_name module_name in
      if is_some (lookup normalized r.modules)
      then ok normalized
      else err (validation (unknown_module normalized))
]

-- The request that a call submits: a push names a module of the ruleset, in normal form.
unfoldable pub check_request : Option Revision → FocusRequest → Result FocusRequest
unfolding validate_focus_module
check_request revision (push m) = elim (validate_focus_module revision m) [
  | ok n ↦ ok (push n)
  | err e ↦ err e
]
check_request revision pop = ok pop
check_request revision clear = ok clear

module _ {S : Type 0} where
  unfoldable pub apply_request : Driver S → FocusRequest → Driver S × Reply
  unfolding push_focus pop_focus clear_focus_stack
  apply_request d (push m) = (push_focus d m, changed)
  apply_request d pop = ((pop_focus d).0, popped (pop_focus d).1)
  apply_request d clear = (clear_focus_stack d, changed)

  -- `shouldQueueMutationDuringRun` at the zero origin.
  abbrev pub should_queue : Session S → Bool
  should_queue s = not s.listener_dispatch_active && s.run_guard_held

  unfoldable pub begin_mutation : Session S → Session S × Bool
  begin_mutation s =
      if s.mutate_held
      then (s, false)
      else let taken : Session S = record s { mutate_held = true } in
        if s.lock_held
        then (record taken { mutate_held = false }, false)
        else (record taken { lock_held = true }, true)

  unfoldable pub end_mutation : Session S → Session S
  end_mutation s = record s { mutate_held = false; lock_held = false }

  -- `beginMutationForOrigin` at the zero origin, which may not mutate during a run.
  unfoldable pub begin_mutation_for_origin : Session S → Session S × Bool
  unfolding begin_mutation
  begin_mutation_for_origin s = if s.run_guard_held then (s, false) else begin_mutation s

  unfoldable pub enqueue_mutation : Session S → Queued → Session S × Bool
  enqueue_mutation s request =
      if not s.run_guard_held
      then (s, false)
      else (record s { queue = s.queue ++ request ∷ [] }, true)

  unfoldable pub pop_queued_mutations : Session S → Session S × List Queued
  pop_queued_mutations s = (record s { queue = [] }, s.queue)

  -- The part that the three calls share: queue the request during a run, or mutate under the lock.
  unfoldable pub submit : Session S → Option ℕ → FocusRequest → Session S × Outcome
  unfolding enqueue_mutation begin_mutation_for_origin end_mutation apply_request
  submit s context request =
      let (queued, took) = enqueue_mutation s (record { context = context; request = request }) in
      if should_queue s && took
      then (queued, waiting)
      else let (locked, got) = begin_mutation_for_origin s in
        if got
        then (
          end_mutation (record locked { driver = (apply_request locked.driver request).0 }),
          returned (ok (apply_request locked.driver request).1),
        )
        else (locked, returned (err concurrency_misuse))

  -- `PushFocus` and `SetFocus` (`setFocusWithContext`), `PopFocus`, `ClearFocusStack`.
  unfoldable pub focus_call : Contexts → Session S → Option ℕ → FocusRequest → Session S × Outcome
  unfolding submit check_request
  focus_call errs s context request =
      if s.closed then (s, returned (err closed_session)) else elim (context_error errs context) [
        | some e ↦ (s, returned (err e))
        | none ↦ elim (check_request s.revision request) [
          | err e ↦ (s, returned (err e))
          | ok r ↦ submit s context r
        ]
      ]

  abbrev pub answer_first : Result Reply → DrainResult S → DrainResult S
  answer_first r d = record { session = d.session; answers = r ∷ d.answers; stopped = d.stopped }

  unfoldable pub drain_requests : Contexts → Option ℕ → List Queued → Session S → DrainResult S
  unfolding begin_mutation end_mutation apply_request fail_requests
  drain_requests errs context [] s = record { session = s; answers = []; stopped = none }
  drain_requests errs context (q ∷ qs) s = elim (context_error errs q.context) [
    | some own ↦ answer_first (err own) (drain_requests errs context qs s)
    | none ↦ elim (context_error errs context) [
      | some e ↦ record { session = s; answers = err e ∷ fail_requests errs e qs; stopped = some e }
      | none ↦
          let (locked, got) = begin_mutation s in
          elim got [
            | false ↦ record {
              session = locked;
              answers = err concurrency_misuse ∷ fail_requests errs concurrency_misuse qs;
              stopped = some concurrency_misuse;
            }
            | true ↦ answer_first (ok (apply_request locked.driver q.request).1) (
                drain_requests errs context qs (
                  end_mutation
                    (record locked { driver = (apply_request locked.driver q.request).0 })))
          ]
    ]
  ]

  unfoldable pub drain_queued_mutations : Contexts → Option ℕ → Session S → DrainResult S
  unfolding pop_queued_mutations drain_requests
  drain_queued_mutations errs context s =
      let (emptied, requests) = pop_queued_mutations s in
      drain_requests errs context requests emptied

  unfoldable pub apply_auto_focus : Revision → Driver S → List (Change Text) → Driver S
  unfolding push_focus lookup
  apply_auto_focus r d [] = d
  apply_auto_focus r d (c ∷ cs) =
      let rest = λ (d' : Driver S). apply_auto_focus r d' cs in
      elim c.kind [
        | deactivated ↦ rest d
        | activated ↦ elim (lookup c.rule_revision_id r.rules_by_revision_id) [
          | none ↦ rest d
          | some rule ↦
              if rule.effective_auto_focus then rest (push_focus d rule.module_of) else rest d
        ]
      ]
