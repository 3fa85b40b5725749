-- ===== src/Origin.antt =====
-- Mutations that a rule's action makes during a run: their origin (`mutationOrigin` of
-- internal/engine/mutation.go, `activationIDForIdentityKey` of internal/engine/agenda.go,
-- `mutationOrigin` of internal/engine/action.go) and the focus calls of an action
-- (internal/engine/focus.go). `digits` is how `writeUintToBuilder` writes a number.
pub mod Laws
mod Tests
use gess.Prelude.{
  if◌then◌else◌, Bool, true, false, not, ◌&&◌, ◌||◌, Option, none, some, List, [], ◌++◌, ℕ, Text,
  codes, trim_space, ◌==◌, nat_eq, list_eq,
}
use gess.Prelude.Result.{Result, ok, err, closed_session, concurrency_misuse}
use gess.Agenda.Activation.{IdentityKey, Activation}
use gess.Focus.Session.{
  Session, FocusRequest, Reply, Contexts, context_error, check_request, apply_request,
  begin_mutation, end_mutation,
}

pub record MutationOrigin : Type 0 where
  pub activation_id : Text
  pub rule_id : Text
  pub rule_revision_id : Text
  pub action_name : Text
  pub action_index : ℕ
  pub activation_identity_key : IdentityKey
  pub activation_ordinal : ℕ
  pub query_proof_id : ℕ

abbrev pub key_beq : IdentityKey → IdentityKey → Bool
key_beq a b = (a.scope_hash == b.scope_hash) && (a.hash == b.hash)

abbrev pub no_key : IdentityKey
no_key = record { scope_hash = 0; hash = 0 }

-- `mutationOrigin.isZero`.
unfoldable pub origin_is_zero : MutationOrigin → Bool
origin_is_zero o =
    (((o.activation_id == []) && (o.rule_id == []))
      && ((o.rule_revision_id == []) && (o.action_name == [])))
    && (((o.action_index == 0) && key_beq o.activation_identity_key no_key)
        && ((o.activation_ordinal == 0) && (o.query_proof_id == 0)))

-- `ActivationID.IsZero`.
unfoldable pub activation_id_is_zero : Text → Bool
unfolding trim_space
activation_id_is_zero id = trim_space id == []

-- What the session says of the run: whether one is active, and the activation that fires.
pub record RunState : Type 0 where
  pub active : Bool
  pub activation : Option Activation

-- The origin that an action context gives to its mutations.
pub record ActionContext : Type 0 where
  pub rule_id : Text
  pub rule_revision_id : Text
  pub action_name : Text
  pub action_index : ℕ
  pub activation_key : IdentityKey
  pub activation_ord : ℕ

unfoldable pub action_origin : ActionContext → MutationOrigin
action_origin c = record {
  activation_id = [];
  rule_id = c.rule_id;
  rule_revision_id = c.rule_revision_id;
  action_name = c.action_name;
  action_index = c.action_index;
  activation_identity_key = c.activation_key;
  activation_ordinal = c.activation_ord;
  query_proof_id = 0;
}

module _ (digits : ℕ → Text) where
  unfoldable pub activation_id_for_identity_key : IdentityKey → ℕ → Text
  activation_id_for_identity_key identity index =
      if key_beq identity no_key
      then []
      else codes "activation:v1:"
        ++ digits identity.scope_hash
        ++ codes ":"
        ++ digits identity.hash
        ++ codes ":"
        ++ digits index

  unfoldable pub origin_activation_id : MutationOrigin → Text
  unfolding activation_id_is_zero activation_id_for_identity_key
  origin_activation_id o =
      if not (activation_id_is_zero o.activation_id)
      then o.activation_id
      else activation_id_for_identity_key o.activation_identity_key o.activation_ordinal

  unfoldable pub matches_activation : MutationOrigin → Option Activation → Bool
  unfolding origin_is_zero origin_activation_id activation_id_for_identity_key activation_id_is_zero
  matches_activation o none = false
  matches_activation o (some act) =
      if origin_is_zero o
      then false
      else if not (o.rule_revision_id == act.rule_revision_id)
      then false
      else if (not (activation_id_is_zero o.activation_id)
            || key_beq o.activation_identity_key no_key)
          || key_beq act.identity_key no_key
      then origin_activation_id o == activation_id_for_identity_key act.identity_key act.ordinal
      else key_beq o.activation_identity_key act.identity_key
        && (o.activation_ordinal == act.ordinal)

  unfoldable pub can_mutate_during_run : RunState → MutationOrigin → Bool
  unfolding origin_is_zero matches_activation
  can_mutate_during_run run o =
      if origin_is_zero o
      then false
      else if not run.active
      then false
      else matches_activation o run.activation

  module _ {S : Type 0} where
    -- `beginMutationForOrigin`: the session, whether it was locked, and whether to go on.
    unfoldable pub begin_mutation_for :
        RunState → MutationOrigin → Session S → Session S × Bool × Bool
    unfolding can_mutate_during_run begin_mutation
    begin_mutation_for run o s =
        if can_mutate_during_run run o
        then (s, false, true)
        else if s.run_guard_held
        then (s, false, false)
        else let (s', got) = begin_mutation s in
          if not got then (s', false, false) else (s', true, true)

    -- `pushFocusWithOrigin`, `popFocusWithOrigin` and `clearFocusStackWithOrigin`.
    unfoldable pub origin_focus_call :
        Contexts
        → RunState
        → MutationOrigin
        → Session S
        → Option ℕ
        → FocusRequest
        → Session S × Result Reply
    unfolding check_request begin_mutation_for apply_request end_mutation
    origin_focus_call errs run o s context request =
        if s.closed then (s, err closed_session) else elim (context_error errs context) [
          | some e ↦ (s, err e)
          | none ↦ elim (check_request s.revision request) [
            | err e ↦ (s, err e)
            | ok r ↦
                let (s', locked, go) = begin_mutation_for run o s in
                let done : Session S = record s' { driver = (apply_request s'.driver r).0 } in
                if not go
                then (s', err concurrency_misuse)
                else (if locked then end_mutation done else done, ok (apply_request s'.driver r).1)
          ]
        ]

    -- `PushFocus`, `PopFocus` and `ClearFocusStack` of an action.
    unfoldable pub action_focus_call :
        Contexts
        → RunState
        → ActionContext
        → Session S
        → Option ℕ
        → FocusRequest
        → Session S × Result Reply
    unfolding action_origin origin_focus_call
    action_focus_call errs run c s context request =
        origin_focus_call errs run (action_origin c) s context request
