-- ===== src/Agenda/Activation/Orders.antt =====
-- Both strategies order the activations of an agenda strictly and totally.
use gess.Prelude.{
  ◌≡◌, sym, subst, fun_ext, if◌then◌else◌, Bool, true, false, not, ◌≢◌, ℕ, ◌==◌, nat_eq,
  list_beq_iff, ltb, arith,
}
use gess.Agenda.Heap.Order.{IsLess}
use gess.Focus.{Strategy, depth, breadth}
use gess.Agenda.Activation.{
  Activation, ordinal_less, hash_less, identity_less, declaration_less, recency_less, depth_less,
  birth_less, breadth_less, activation_less,
}
use gess.Agenda.Activation.Lexicographic.{ascending, descending, descending_int}

-- The activations of one rule revision have one declaration order.
abbrev pub IsDeclared : (ℕ → Activation) → Type 0
IsDeclared row =
    (a b : ℕ)
    → (row a).rule_revision_id ≡ (row b).rule_revision_id
    → (row a).declaration_order ≡ (row b).declaration_order

module _ (row : ℕ → Activation) where
  ordinal-IsLess : IsLess (λ a b. ordinal_less (row a) (row b))
  unfolding ordinal_less
  ordinal-IsLess = record {
    asym = λ a b h. ground arith;
    not_less_trans = λ a b c h k. ground arith;
  }

  hash-IsLess : IsLess (λ a b. hash_less (row a) (row b))
  unfolding hash_less
  hash-IsLess = record {
    asym = λ a b h. ground (arith, ordinal-IsLess.asym a b);
    not_less_trans = λ a b c h k. ground (arith, ordinal-IsLess.not_less_trans a b c);
  }

  identity-IsLess : IsLess (λ a b. identity_less (row a) (row b))
  unfolding identity_less
  identity-IsLess = record {
    asym = λ a b h. ground (arith, hash-IsLess.asym a b);
    not_less_trans = λ a b c h k. ground (arith, hash-IsLess.not_less_trans a b c);
  }

  abbrev recency : (ℕ → ℕ → Bool) → ℕ → ℕ → Bool
  recency rest a b =
      if not ((row a).max_recency == (row b).max_recency)
      then ltb (row b).max_recency (row a).max_recency
      else if not ((row a).total_recency == (row b).total_recency)
      then ltb (row b).total_recency (row a).total_recency
      else rest a b

  recency-IsLess : (rest : ℕ → ℕ → Bool) → IsLess rest → IsLess (recency rest)
  recency-IsLess rest laws =
      descending _ (descending rest laws (λ a. (row a).total_recency)) (λ a. (row a).max_recency)

  birth-IsLess : IsLess (λ a b. birth_less (row a) (row b))
  unfolding birth_less
  birth-IsLess =
      ascending _ (ascending _ ordinal-IsLess (λ a. (row a).birth_rank)) (λ a. (row a).birth_epoch)

  module _ (declared : IsDeclared row) where
    -- The test on the rule revisions may be left out: within one the declaration orders agree.
    declaration_less-true :
        (a b : ℕ)
        → declaration_less true (row a) (row b) ≡ (
            if not ((row a).declaration_order == (row b).declaration_order)
            then ltb (row a).declaration_order (row b).declaration_order
            else identity_less (row a) (row b))
    unfolding declaration_less
    declaration_less-true a b =
        ground (arith, declared a b, list_beq_iff (row a).rule_revision_id (row b).rule_revision_id)

    declaration-IsLess :
        (has_revision : Bool) → IsLess (λ a b. declaration_less has_revision (row a) (row b))
    declaration-IsLess false = unfold declaration_less in identity-IsLess
    declaration-IsLess true =
        subst IsLess (fun_ext λ a. fun_ext λ b. sym (declaration_less-true a b))
          (ascending _ identity-IsLess (λ a. (row a).declaration_order))

    depth-IsLess : (has_revision : Bool) → IsLess (λ a b. depth_less has_revision (row a) (row b))
    unfolding depth_less recency_less
    depth-IsLess has_revision =
        descending_int _ (recency-IsLess _ (declaration-IsLess has_revision))
          (λ a. (row a).salience)

    -- Whatever the strategy, the order in which activations fire is a strict weak order, provided
    -- that the activations of one rule revision have one declaration order.
    pub activation_less-IsLess :
        (strategy : Strategy) (has_revision : Bool)
        → IsLess (λ a b. activation_less strategy has_revision (row a) (row b))
    unfolding activation_less breadth_less
    activation_less-IsLess depth has_revision = depth-IsLess has_revision
    activation_less-IsLess breadth has_revision =
        descending_int _ birth-IsLess (λ a. (row a).salience)

  ordinal_total :
      (a b : ℕ)
      → (row a).ordinal ≢ (row b).ordinal
      → identity_less (row a) (row b) ≡ false
      → identity_less (row b) (row a) ≡ true
  unfolding identity_less
  ordinal_total a b n h = ground (arith, n)

  depth_total :
      (has_revision : Bool) (a b : ℕ)
      → (row a).ordinal ≢ (row b).ordinal
      → depth_less has_revision (row a) (row b) ≡ false
      → depth_less has_revision (row b) (row a) ≡ true
  unfolding depth_less recency_less declaration_less
  depth_total has_revision a b n h = ground (
    arith,
    ordinal_total a b n,
    list_beq_iff (row a).rule_revision_id (row b).rule_revision_id,
    list_beq_iff (row b).rule_revision_id (row a).rule_revision_id,
  )

  -- Of two activations with different ordinals one fires before the other, whatever the strategy.
  pub activation_less_total :
      (strategy : Strategy) (has_revision : Bool) (a b : ℕ)
      → (row a).ordinal ≢ (row b).ordinal
      → activation_less strategy has_revision (row a) (row b) ≡ false
      → activation_less strategy has_revision (row b) (row a) ≡ true
  unfolding activation_less
  activation_less_total depth has_revision a b n h = depth_total has_revision a b n h
  activation_less_total breadth has_revision a b n h =
      unfold breadth_less birth_less ordinal_less in ground (arith, n)
