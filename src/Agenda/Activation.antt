-- ===== src/Agenda/Activation.antt =====
-- Activations and the orders in which they fire (`activation`, `activationDepthLess`,
-- `activationBreadthLess` of internal/engine/agenda.go). Pointers are never nil here.
pub mod Lexicographic
pub mod Orders
use gess.Prelude.{if◌then◌else◌, Bool, true, false, not, ◌&&◌, ℕ, Text, ◌==◌, nat_eq, list_eq, ltb}
use gess.Prelude.Int.{ℤ, int_ltb, int_beq}
use gess.Module.{ModuleName}
use gess.Focus.{Strategy, depth, breadth}

-- `candidateIdentityKey`.
pub record IdentityKey : Type 0 where
  pub scope_hash : ℕ
  pub hash : ℕ

pub record Activation : Type 0 where
  pub ordinal : ℕ
  pub rule_revision_id : Text
  pub identity_key : IdentityKey
  pub birth_epoch : ℕ
  pub birth_rank : ℕ
  pub module_of : ModuleName
  pub salience : ℤ
  pub declaration_order : ℕ
  pub max_recency : ℕ
  pub total_recency : ℕ
  pub query_proof_id : ℕ

-- The last tests of both orders.
unfoldable pub ordinal_less : Activation → Activation → Bool
ordinal_less left right =
    if ltb left.ordinal right.ordinal
    then true
    else if not (left.ordinal == right.ordinal)
    then false
    else false

unfoldable pub hash_less : Activation → Activation → Bool
unfolding ordinal_less
hash_less left right =
    if ltb left.identity_key.hash right.identity_key.hash
    then true
    else if not (left.identity_key.hash == right.identity_key.hash)
    then false
    else ordinal_less left right

unfoldable pub identity_less : Activation → Activation → Bool
unfolding hash_less
identity_less left right =
    if ltb left.identity_key.scope_hash right.identity_key.scope_hash
    then true
    else if not (left.identity_key.scope_hash == right.identity_key.scope_hash)
    then false
    else hash_less left right

-- `has_revision` is the test `revision != nil`.
unfoldable pub declaration_less : Bool → Activation → Activation → Bool
unfolding identity_less
declaration_less has_revision left right =
    if (has_revision && not (left.rule_revision_id == right.rule_revision_id))
      && not (left.declaration_order == right.declaration_order)
    then ltb left.declaration_order right.declaration_order
    else identity_less left right

unfoldable pub recency_less : Bool → Activation → Activation → Bool
unfolding declaration_less
recency_less has_revision left right =
    if not (left.max_recency == right.max_recency)
    then ltb right.max_recency left.max_recency
    else if not (left.total_recency == right.total_recency)
    then ltb right.total_recency left.total_recency
    else declaration_less has_revision left right

unfoldable pub depth_less : Bool → Activation → Activation → Bool
unfolding recency_less
depth_less has_revision left right =
    if not (int_beq left.salience right.salience)
    then int_ltb right.salience left.salience
    else recency_less has_revision left right

unfoldable pub birth_less : Activation → Activation → Bool
unfolding ordinal_less
birth_less left right =
    if not (left.birth_epoch == right.birth_epoch)
    then ltb left.birth_epoch right.birth_epoch
    else if not (left.birth_rank == right.birth_rank)
    then ltb left.birth_rank right.birth_rank
    else ordinal_less left right

unfoldable pub breadth_less : Activation → Activation → Bool
unfolding birth_less
breadth_less left right =
    if not (int_beq left.salience right.salience)
    then int_ltb right.salience left.salience
    else birth_less left right

-- `lessActivation`, as `newAgendaWithStrategy` sets it.
unfoldable pub activation_less : Strategy → Bool → Activation → Activation → Bool
unfolding depth_less breadth_less
activation_less depth has_revision = depth_less has_revision
activation_less breadth has_revision = breadth_less
