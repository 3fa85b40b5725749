-- ===== src/Origin/Tests.antt =====
-- The theorem on the focus calls of actions at a concrete session.
use gess.Prelude.{
  if◌then◌else◌, ◌≢◌, ◌≡◌, refl, true, false, none, some, [], ◌∷◌, ℕ, ◌+◌, Text, codes,
}
use gess.Prelude.Int.{pos}
use gess.Prelude.Result.{ok, err, concurrency_misuse}
use gess.Module.{main_module}
use gess.Focus.{depth}
use gess.Focus.Session.{Session, Contexts, pop, apply_request, check_request}
use gess.Agenda.Activation.{Activation}
use gess.Origin.{RunState, ActionContext, action_focus_call}
use gess.Origin.Laws.{is_firing, action_focus_call_lem}

abbrev digits : ℕ → Text
digits n = (48 + n) ∷ []

abbrev fired : Activation
fired = record {
  ordinal = 2;
  rule_revision_id = codes "r1";
  identity_key = record { scope_hash = 3; hash = 8 };
  birth_epoch = 1;
  birth_rank = 1;
  module_of = main_module;
  salience = pos 0;
  declaration_order = 0;
  max_recency = 2;
  total_recency = 3;
  query_proof_id = 0;
}

abbrev run : RunState
run = record { active = true; activation = some fired }

abbrev action : ActionContext
action = record {
  rule_id = codes "rule";
  rule_revision_id = codes "r1";
  action_name = codes "act";
  action_index = 0;
  activation_key = record { scope_hash = 3; hash = 8 };
  activation_ord = 2;
}

abbrev session : Session ℕ
session = record {
  closed = false;
  revision = none;
  driver = record {
    agenda = 0;
    strategy = depth;
    initial_focus_stack = main_module ∷ [];
    focus_stack = main_module ∷ codes "billing" ∷ [];
    ready = true;
    dirty = false;
  };
  listener_dispatch_active = false;
  run_guard_held = true;
  mutate_held = true;
  lock_held = true;
  queue = [];
}

abbrev calm : Contexts
calm c = none

named : action.rule_revision_id ≢ []
named e = cc

valid : check_request none pop ≡ ok pop
unfolding check_request
valid = refl

action_focus_call_lem_example : action_focus_call digits calm run action session none pop ≡ (
    if is_firing run action
    then (
      record session { driver = (apply_request session.driver pop).0 },
      ok (apply_request session.driver pop).1,
    )
    else (session, err concurrency_misuse))
action_focus_call_lem_example =
    action_focus_call_lem digits calm run action session none pop pop refl refl valid refl named

-- An action of another firing of the rule is refused, and one of this firing is not.
late_action : is_firing run (record action { activation_ord = 3 }) ≡ false
unfolding gess.Prelude.list_beq
late_action = refl

own_action : is_firing run action ≡ true
unfolding gess.Prelude.list_beq
own_action = refl
