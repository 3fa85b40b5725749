-- ===== src/Agenda/Modules/Reset.antt =====
-- `resetModuleQueues`: no activation keeps a place.
use gess.Prelude.{
  ◌≡◌, refl, ◌∙◌, sym, subst, some, [], ◌∷◌, ℕ, zero, suc, ◌≤◌, ◌==◌, nat_eq, list_eq, Bool-cases,
  inl, inr, ◌⊎◌, arith,
}
use gess.Prelude.Assoc.{Assoc, lookup}
use gess.Module.{ModuleName}
use gess.Agenda.Heap.{clear_places, reset}
use gess.Agenda.Modules.{Agenda, ModuleQueue, reset_places, reset_module_queues}

-- A place is cleared, or it is what it was.
clear_places-kept :
    (n : ℕ) (at index : ℕ → ℕ) (a : ℕ)
    → (clear_places n at index a ≡ 0) ⊎ (clear_places n at index a ≡ index a)
unfolding clear_places
clear_places-kept zero at index a = inr refl
clear_places-kept (suc n) at index a = ground (arith, clear_places-kept n at index a)

clear_places-slot :
    (n : ℕ) (at index : ℕ → ℕ) (i : ℕ) → 1 ≤ i → i ≤ n → clear_places n at index (at i) ≡ 0
unfolding clear_places
clear_places-slot zero at index i l u = absurd (omega arith)
clear_places-slot (suc n) at index i l u = ground (arith, clear_places-slot n at index i l)

-- A place is cleared, or it is what it was.
reset_places-kept :
    (qs : Assoc ModuleName ModuleQueue) (index : ℕ → ℕ) (a : ℕ)
    → (reset_places qs index a ≡ 0) ⊎ (reset_places qs index a ≡ index a)
unfolding reset_places reset
reset_places-kept [] index a = inr refl
reset_places-kept ((m, q) ∷ rest) index a = ground (
  arith,
  clear_places-kept q.count q.at index a,
  reset_places-kept rest (clear_places q.count q.at index) a,
)

reset_places-held :
    (qs : Assoc ModuleName ModuleQueue) (index : ℕ → ℕ) (m : ModuleName) (q : ModuleQueue) (i : ℕ)
    → lookup m qs ≡ some q
    → 1 ≤ i
    → i ≤ q.count
    → reset_places qs index (q.at i) ≡ 0
unfolding reset_places reset lookup
reset_places-held [] index m q i e l u = cc
reset_places-held ((n, p) ∷ rest) index m q i e l u = elim (Bool-cases (n == m)) [
  | inr k ↦
      reset_places-held rest (clear_places p.count p.at index) m q i (ground (arith, k, e)) l u
  | inl k ↦
      let same : p ≡ q = ground (arith, k, e) in
      subst (λ r. reset_places rest (clear_places r.count r.at index) (q.at i) ≡ 0) (sym same)
        (elim (reset_places-kept rest (clear_places q.count q.at index) (q.at i)) [
          | inl z ↦ z
          | inr s ↦ s ∙ clear_places-slot q.count q.at index i l u
        ])
]

-- `resetModuleQueues` leaves no queue, and no activation that a queue held keeps its place; any
-- other activation has lost its place or has the place that it had.
pub reset_module_queues_lem :
    (a : Agenda)
    → ((reset_module_queues a).module_queues ≡ [])
      × ((m : ModuleName) (q : ModuleQueue) (i : ℕ)
          → lookup m a.module_queues ≡ some q
          → 1 ≤ i
          → i ≤ q.count
          → (reset_module_queues a).index (q.at i) ≡ 0)
      × ((x : ℕ)
          → ((reset_module_queues a).index x ≡ 0) ⊎ ((reset_module_queues a).index x ≡ a.index x))
unfolding reset_module_queues
reset_module_queues_lem a =
    (refl, reset_places-held a.module_queues a.index, reset_places-kept a.module_queues a.index)
