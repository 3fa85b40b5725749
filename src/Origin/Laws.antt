-- ===== src/Origin/Laws.antt =====
-- When an action may mutate during a run, and what its focus calls do.
use gess.Prelude.{
  if◌then◌else◌, Bool, Bool-cases, ◌&&◌, ◌||◌, ◌==◌, ◌≡◌, ◌≢◌, refl, ap, sym, ◌∙◌, not, true, false,
  Option, none, some, [], ℕ, Text, nat_eq, list_eq, list_beq, list_beq_iff, arith, trim_space, inl,
  inr,
}
use gess.Prelude.Result.{ok, err, concurrency_misuse}
use gess.Agenda.Activation.{Activation, IdentityKey}
use gess.Focus.Session.{
  Session, FocusRequest, Contexts, context_error, check_request, apply_request,
}
use gess.Origin.{
  RunState, ActionContext, key_beq, no_key, action_origin, origin_is_zero, origin_activation_id,
  activation_id_is_zero, activation_id_for_identity_key, matches_activation, can_mutate_during_run,
  begin_mutation_for, origin_focus_call, action_focus_call,
}

-- The context belongs to the activation: the same revision of a rule and the same identity, where
-- the ordinal counts unless the identity is the empty one.
abbrev pub belongs : ActionContext → Activation → Bool
belongs c act =
    (c.rule_revision_id == act.rule_revision_id)
    && (key_beq c.activation_key act.identity_key
        && (key_beq c.activation_key no_key || (c.activation_ord == act.ordinal)))

-- A run is active, and the activation that fires is the one that the context belongs to.
abbrev pub is_firing : RunState → ActionContext → Bool
is_firing run c = elim run.activation [ none ↦ false | some act ↦ run.active && belongs c act ]

-- Three tests on keys of which two fix the third.
key_beq-none : (a b : IdentityKey) → key_beq a no_key ≡ true → key_beq a b ≡ key_beq b no_key
key_beq-none a b h = ground arith

key_beq-some :
    (a b : IdentityKey) → key_beq a no_key ≡ false → key_beq b no_key ≡ true → key_beq a b ≡ false
key_beq-some a b h k = ground arith

named-not_zero :
    (c : ActionContext) → c.rule_revision_id ≢ [] → origin_is_zero (action_origin c) ≡ false
unfolding origin_is_zero action_origin
named-not_zero c named = ground (arith, list_beq_iff c.rule_revision_id [])

module _ (digits : ℕ → Text) where
  same_id :
      (c : ActionContext)
      → origin_activation_id digits (action_origin c)
        ≡ activation_id_for_identity_key digits c.activation_key c.activation_ord
  unfolding origin_activation_id action_origin activation_id_is_zero trim_space list_beq
  same_id c = refl

  no_id :
      (k : IdentityKey) (n : ℕ)
      → key_beq k no_key ≡ true
      → activation_id_for_identity_key digits k n ≡ []
  unfolding activation_id_for_identity_key
  no_id k n h = ground (arith, h)

  -- The text of an identity is empty exactly where the identity is.
  id-empty :
      (k : IdentityKey) (n : ℕ)
      → list_beq [] (activation_id_for_identity_key digits k n) ≡ key_beq k no_key
  unfolding list_beq activation_id_for_identity_key
  id-empty k n = elim (Bool-cases (key_beq k no_key)) [
    | inl h ↦ rw (h, list_beq) refl
    | inr h ↦ rw (h, list_beq) refl
  ]

  id-filled :
      (k : IdentityKey) (n : ℕ)
      → list_beq (activation_id_for_identity_key digits k n) [] ≡ key_beq k no_key
  unfolding list_beq activation_id_for_identity_key
  id-filled k n = elim (Bool-cases (key_beq k no_key)) [
    | inl h ↦ rw (h, list_beq) refl
    | inr h ↦ rw (h, list_beq) refl
  ]

  -- Where one of two identities is empty, their texts are the same if both are.
  ids-same :
      (a b : IdentityKey) (n m : ℕ)
      → (key_beq a no_key || key_beq b no_key) ≡ true
      → list_beq
          (activation_id_for_identity_key digits a n)
          (activation_id_for_identity_key digits b m)
        ≡ (key_beq a b && (key_beq a no_key || (n == m)))
  ids-same a b n m h = elim (Bool-cases (key_beq a no_key)) [
    | inl e ↦
        rw (no_id a n e, e) (id-empty b m ∙ sym (key_beq-none a b e) ∙ sym (and_true (key_beq a b)))
    | inr e ↦
        let k : key_beq b no_key ≡ true = ground (arith, h, e) in
        rw (no_id b m k, e)
          (id-filled a n ∙ e ∙ sym (ap (λ t. t && (n == m)) (key_beq-some a b e k)))
  ]
    where
      and_true : (t : Bool) → (t && true) ≡ t
      and_true true = refl
      and_true false = refl

  matches-belongs :
      (c : ActionContext) (act : Activation)
      → c.rule_revision_id ≢ []
      → matches_activation digits (action_origin c) (some act) ≡ belongs c act
  unfolding matches_activation action_origin trim_space activation_id_is_zero list_beq
  matches-belongs c act named = ground (
    arith,
    named-not_zero c named,
    same_id c,
    ids-same c.activation_key act.identity_key c.activation_ord act.ordinal,
  )

  is_firing-when :
      (act : Option Activation) (active : Bool) (c : ActionContext)
      → c.rule_revision_id ≢ []
      → (if not active then false else matches_activation digits (action_origin c) act)
        ≡ is_firing (record { active = active; activation = act }) c
  is_firing-when none true c named = unfold matches_activation in refl
  is_firing-when none false c named = refl
  is_firing-when (some act) true c named = matches-belongs c act named
  is_firing-when (some act) false c named = refl

  can_mutate-is_firing :
      (run : RunState) (c : ActionContext)
      → c.rule_revision_id ≢ []
      → can_mutate_during_run digits run (action_origin c) ≡ is_firing run c
  can_mutate-is_firing run c named = opened ∙ is_firing-when run.activation run.active c named
    where
      opened : can_mutate_during_run digits run (action_origin c) ≡ (
          if not run.active
          then false
          else matches_activation digits (action_origin c) run.activation)
      opened =
          unfold can_mutate_during_run in
          ap
            (λ b.
              if b
              then false
              else (if not run.active
                  then false
                  else matches_activation digits (action_origin c) run.activation))
            (named-not_zero c named)

  module _ {S : Type 0} where
    -- In an open session while a run lasts, a valid focus call of an action whose rule revision
    -- has a name takes effect at once, takes no lock and waits in no queue if the run is active and
    -- the activation that fires is the one that the action's context belongs to: the same rule
    -- revision, the same identity and, unless that is the empty one, the same ordinal. From any
    -- other context it is refused and changes nothing.
    pub action_focus_call_lem :
        (errs : Contexts) (run : RunState) (c : ActionContext) (s : Session S) (context : Option ℕ)
        (request r : FocusRequest)
        → s.closed ≡ false
        → context_error errs context ≡ none
        → check_request s.revision request ≡ ok r
        → s.run_guard_held ≡ true
        → c.rule_revision_id ≢ []
        → action_focus_call digits errs run c s context request ≡ (
            if is_firing run c
            then (
              record s { driver = (apply_request s.driver r).0 },
              ok (apply_request s.driver r).1,
            )
            else (s, err concurrency_misuse))
    unfolding action_focus_call origin_focus_call begin_mutation_for
    action_focus_call_lem errs run c s context request r o live valid held named =
        ground (arith, can_mutate-is_firing run c named)
