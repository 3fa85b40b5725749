-- ===== src/Agenda/Tests.antt =====
-- The theorems on agendas at concrete queues.
use gess.Prelude.{
  if◌then◌else◌, ◌≡◌, ◌≢◌, refl, ◌↔◌, ◌⊎◌, Bool, true, false, Option, none, some, List, [], ◌∷◌, ℕ,
  ◌<◌, ◌≤◌, Text, codes, ltb, ◌==◌, list_eq, nat_eq, Bool-cases, inl, inr, subst, arith,
}
use gess.Prelude.Assoc.{lookup}
use gess.Prelude.Int.{pos}
use gess.Module.{ModuleName, main_module}
use gess.Focus.{depth}
use gess.Agenda.Heap.{Heap, new_heap, push, pop, remove, fix}
use gess.Agenda.Heap.Order.{IsLess, Holds, Rearranges}
use gess.Agenda.Heap.Queue.{IsQueue, Removes, push-IsQueue, pop-first, remove_lem, fix-IsQueue}
use gess.Agenda.Activation.{Activation, activation_less}
use gess.Agenda.Activation.Orders.{IsDeclared, activation_less-IsLess}
use gess.Agenda.Modules.{
  Agenda, ModuleQueue, scan_queues, drop_stale, next_queue, heap_of, take_pending, peek_for_module,
  next_for_module,
}
use gess.Agenda.Modules.Apart.{IsHeldIn, AreOrderly}
use gess.Agenda.Modules.Choice.{IsChoice, next_queue-first}
use gess.Agenda.Modules.Next.{Takes, IsOrderly, take_pending-Takes, peek_for_module-next}

ltb-IsLess : IsLess ltb
ltb-IsLess = record { asym = λ a b h. ground arith; not_less_trans = λ a b c h k. ground arith }

abbrev empty_queue : Heap
empty_queue = new_heap (λ i. 0)

empty-IsQueue : IsQueue ltb empty_queue
unfolding new_heap
empty-IsQueue = record {
  indexed = λ i p q. absurd (omega arith);
  ordered = λ i p q. absurd (omega arith);
}

abbrev one : Heap
one = push ltb true 9 empty_queue

one-IsQueue : IsQueue ltb one
unfolding new_heap
one-IsQueue = (push-IsQueue ltb ltb-IsLess 9 empty_queue empty-IsQueue refl).0

abbrev two : Heap
two = push ltb true 7 one

push-IsQueue_example :
    IsQueue ltb (push ltb true 7 one)
    × ((x : ℕ) → Holds (push ltb true 7 one) x ↔ (Holds one x ⊎ (x ≡ 7)))
    × ((x : ℕ) → ¬ Holds one x → x ≢ 7 → (push ltb true 7 one).index x ≡ one.index x)
unfolding push new_heap
push-IsQueue_example = push-IsQueue ltb ltb-IsLess 7 one one-IsQueue refl

two-IsQueue : IsQueue ltb two
unfolding push new_heap
two-IsQueue = (push-IsQueue ltb ltb-IsLess 7 one one-IsQueue refl).0

two_filled : 0 < two.count
unfolding push new_heap
two_filled = omega arith

pop-first_example :
    (a : ℕ) × (h' : Heap) × (pop ltb two ≡ (h', some a))
    × Holds two a
    × ((x : ℕ) → Holds two x → ltb x a ≡ false)
    × Removes ltb ltb-IsLess a two h'
pop-first_example = pop-first ltb ltb-IsLess two two-IsQueue two_filled

remove_lem_example :
    (Holds two 9 → (h' : Heap) × (remove ltb 9 two ≡ (h', true)) × Removes ltb ltb-IsLess 9 two h')
    × (¬ Holds two 9 → remove ltb 9 two ≡ (two, false))
remove_lem_example = remove_lem ltb ltb-IsLess 9 two two-IsQueue

two-Holds : Holds two 9
unfolding push new_heap
two-Holds = (omega arith, omega arith, refl)

fix-IsQueue_example : IsQueue ltb (fix ltb 9 two) × Rearranges two (fix ltb 9 two)
fix-IsQueue_example =
    fix-IsQueue ltb ltb ltb-IsLess ltb-IsLess 9 two (λ x y n m. refl) two-IsQueue two-Holds

abbrev row : ℕ → Activation
row n = record {
  ordinal = n;
  rule_revision_id = codes "r1";
  identity_key = record { scope_hash = 0; hash = n };
  birth_epoch = 1;
  birth_rank = n;
  module_of = main_module;
  salience = pos 0;
  declaration_order = 4;
  max_recency = 2;
  total_recency = 3;
  query_proof_id = 0;
}

row-IsDeclared : IsDeclared row
row-IsDeclared a b e = refl

activation_less-IsLess_example : IsLess (λ a b. activation_less depth true (row a) (row b))
activation_less-IsLess_example = activation_less-IsLess row row-IsDeclared depth true

three_later : activation_less depth true (row 3) (row 2) ≡ false
unfolding activation_less gess.Prelude.list_beq
three_later = refl

different : (row 3).ordinal ≢ (row 2).ordinal
different e = absurd (omega arith)

-- 7 was deactivated while it stood in the queue.
abbrev still_pending : ℕ → Bool
still_pending a = ltb 8 a

take_pending-Takes_example :
    Takes ltb ltb-IsLess still_pending two (take_pending ltb still_pending two.count two)
take_pending-Takes_example = take_pending-Takes ltb ltb-IsLess still_pending two two-IsQueue

abbrev agenda : Agenda
agenda = record {
  module_queues = (main_module, record { count = two.count; at = two.at }) ∷ [];
  index = two.index;
  pending = still_pending;
  module_of = λ a. main_module;
}

agenda-IsOrderly : IsOrderly ltb ltb-IsLess agenda
unfolding lookup
agenda-IsOrderly m q e = elim (Bool-cases (main_module == m)) [
  | inl k ↦
      let same : record { count = two.count; at = two.at } ≡ q = ground (arith, k, e) in
      subst (λ q. IsQueue ltb (heap_of two.index q)) same
        (record { indexed = two-IsQueue.indexed; ordered = two-IsQueue.ordered })
  | inr k ↦ absurd (ground (arith, k, e))
]

peek_for_module-next_example :
    (peek_for_module ltb agenda main_module).1 ≡ (next_for_module ltb agenda main_module).1
peek_for_module-next_example =
    peek_for_module-next ltb ltb-IsLess agenda main_module agenda-IsOrderly

-- Two queues: 7, which is no longer pending, before 9, and 12 alone.
abbrev pair : ModuleQueue
pair = record { count = 2; at = λ i. if i == 1 then 7 else 9 }

abbrev single : ModuleQueue
single = record { count = 1; at = λ i. 12 }

abbrev places : ℕ → ℕ
places x = if x == 7 then 1 else if x == 9 then 2 else if x == 12 then 1 else 0

abbrev two_queues : Agenda
two_queues = record agenda {
  module_queues = (main_module, pair) ∷ (codes "billing", single) ∷ [];
  index = places;
}

pair-IsQueue : IsQueue ltb (heap_of places pair)
pair-IsQueue = record { indexed = λ i p q. ground arith; ordered = λ i p q. ground arith }

single-IsQueue : IsQueue ltb (heap_of places single)
single-IsQueue = record { indexed = λ i p q. ground arith; ordered = λ i p q. ground arith }

single-apart :
    (e : ModuleName × ℕ)
    → IsHeldIn ltb ltb-IsLess places ((codes "billing", single) ∷ []) e
    → ¬ Holds (heap_of places pair) e.1
single-apart e (inl (n, h)) k = ground (arith, h, k)
single-apart e (inr h) k = elim h [ ]

two_queues-AreOrderly : AreOrderly ltb ltb-IsLess two_queues.index two_queues.module_queues
two_queues-AreOrderly = (pair-IsQueue, single-apart, (single-IsQueue, (λ e h k. elim h [ ]), tt))

next_queue-first_example :
    IsChoice ltb ltb-IsLess two_queues (next_queue ltb two_queues).0 (next_queue ltb two_queues).1
next_queue-first_example = next_queue-first ltb ltb-IsLess two_queues two_queues-AreOrderly

two_queues_choice : (next_queue ltb two_queues).1 ≡ some (main_module, 9)
unfolding next_queue scan_queues drop_stale pop
two_queues_choice = refl
