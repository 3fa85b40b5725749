-- ===== src/Agenda/Activation/Lexicographic.antt =====
-- A strict weak order refined by a key in front of it.
use gess.Prelude.{if◌then◌else◌, Bool, not, ℕ, ◌==◌, nat_eq, ltb, arith}
use gess.Prelude.Int.{ℤ, int_ltb, int_beq}
use gess.Agenda.Heap.Order.{IsLess}

module _ {A : Type 0} (rest : A → A → Bool) (laws : IsLess rest) where
  pub ascending :
      (key : A → ℕ) → IsLess (λ a b. if not (key a == key b) then ltb (key a) (key b) else rest a b)
  ascending key = record {
    asym = λ a b h. ground (arith, laws.asym a b);
    not_less_trans = λ a b c h k. ground (arith, laws.not_less_trans a b c);
  }

  pub descending :
      (key : A → ℕ) → IsLess (λ a b. if not (key a == key b) then ltb (key b) (key a) else rest a b)
  descending key = record {
    asym = λ a b h. ground (arith, laws.asym a b);
    not_less_trans = λ a b c h k. ground (arith, laws.not_less_trans a b c);
  }

  pub descending_int :
      (key : A → ℤ)
      → IsLess (λ a b. if not (int_beq (key a) (key b)) then int_ltb (key b) (key a) else rest a b)
  descending_int key = record {
    asym = λ a b h. ground (arith, laws.asym a b);
    not_less_trans = λ a b c h k. ground (arith, laws.not_less_trans a b c);
  }
