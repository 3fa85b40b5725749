-- ===== src/Agenda/Modules.antt =====
-- The module queues of an agenda (internal/engine/agenda.go): one heap for each module that has
-- entries. All heaps share the places (`heapIndex`) and the states of the activations. What an
-- activation carries besides (bindings, tokens, snapshots) is not part of the model.
pub mod Pending
pub mod Next
pub mod Reset
pub mod Apart
pub mod Choice
use gess.Prelude.{
  if◌then◌else◌, Bool, true, false, not, ◌&&◌, Option, none, some, List, [], ◌∷◌, ℕ, zero, suc, ◌+◌,
  ◌==◌, nat_eq, list_eq, ltb,
}
use gess.Prelude.Assoc.{Assoc, lookup, insert, delete}
use gess.Module.{ModuleName, normalize_module_name}
use gess.Focus.{frame}
use gess.Agenda.Heap.{Heap, reset, push, pop, remove, fix}

-- `agendaModuleQueue`, without the places.
pub record ModuleQueue : Type 0 where
  pub count : ℕ
  pub at : ℕ → ℕ

-- `pending a` is `a.status == activationStatusPending`, and `module_of a` is `a.module`.
pub record Agenda : Type 0 where
  pub module_queues : Assoc ModuleName ModuleQueue
  pub index : ℕ → ℕ
  pub pending : ℕ → Bool
  pub module_of : ℕ → ModuleName

abbrev pub heap_of : (ℕ → ℕ) → ModuleQueue → Heap
heap_of index q = record { count = q.count; at = q.at; index = index }

abbrev pub queue_of : Heap → ModuleQueue
queue_of h = record { count = h.count; at = h.at }

abbrev pub or_new_queue : Option ModuleQueue → ModuleQueue
or_new_queue none = record { count = 0; at = λ i. 0 }
or_new_queue (some q) = q

-- What is written back after a queue was used: an empty one is taken out of the map.
abbrev pub put_heap : ModuleName → Heap → Agenda → Agenda
put_heap m h a = record a {
  module_queues =
      if h.count == 0 then delete m a.module_queues else insert m (queue_of h) a.module_queues;
  index = h.index;
}

-- `normalizeModuleName`, with the test for the zero name after it.
unfoldable pub module_key : ModuleName → ModuleName
unfolding normalize_module_name frame
module_key m = frame (normalize_module_name m)

unfoldable pub queue_for_module : Agenda → ModuleName → Agenda × ModuleQueue
unfolding lookup insert module_key
queue_for_module a m = elim (lookup (module_key m) a.module_queues) [
  | some q ↦ (a, q)
  | none ↦ (
    record a { module_queues = insert (module_key m) (or_new_queue none) a.module_queues },
    or_new_queue none,
  )
]

-- The loop of `resetModuleQueues`: each queue is reset, and, being empty, taken out of the map.
unfoldable pub reset_places : Assoc ModuleName ModuleQueue → (ℕ → ℕ) → ℕ → ℕ
unfolding reset
reset_places [] index = index
reset_places ((m, q) ∷ rest) index = reset_places rest (reset (heap_of index q)).index

unfoldable pub reset_module_queues : Agenda → Agenda
unfolding reset_places
reset_module_queues a = record a {
  module_queues = [];
  index = reset_places a.module_queues a.index;
}

-- The loop of `pendingActivationCount`.
unfoldable pub count_entries : Assoc ModuleName ModuleQueue → ℕ
count_entries [] = 0
count_entries ((m, q) ∷ rest) = q.count + count_entries rest

module _ (less : ℕ → ℕ → Bool) where
  unfoldable pub enqueue_activation : Agenda → ℕ → Agenda
  unfolding queue_for_module insert push
  enqueue_activation a act =
      if not (a.pending act)
      then a
      else let (a', q) = queue_for_module a (a.module_of act) in
        let h = push less (a.pending act) act (heap_of a'.index q) in
        record a' {
          module_queues = insert (module_key (a.module_of act)) (queue_of h) a'.module_queues;
          index = h.index;
        }

  unfoldable pub dequeue_activation : Agenda → ℕ → Agenda × Bool
  unfolding lookup normalize_module_name remove insert delete
  dequeue_activation a act =
      if a.index act == 0
      then (a, false)
      else elim (lookup (normalize_module_name (a.module_of act)) a.module_queues) [
        | none ↦ (a, false)
        | some q ↦
            let (h, removed) = remove less act (heap_of a.index q) in
            (put_heap (normalize_module_name (a.module_of act)) h a, removed)
      ]

  unfoldable pub fix_activation_order : Agenda → ℕ → Agenda
  unfolding lookup normalize_module_name fix insert
  fix_activation_order a act =
      if a.index act == 0
      then a
      else elim (lookup (normalize_module_name (a.module_of act)) a.module_queues) [
        | none ↦ a
        | some q ↦
            let h = fix less act (heap_of a.index q) in
            record a {
              module_queues =
                  insert (normalize_module_name (a.module_of act)) (queue_of h) a.module_queues;
              index = h.index;
            }
      ]

  -- The loop that takes entries that are no longer pending off the top of a heap. Each round
  -- shortens the heap, so its length is enough fuel.
  unfoldable pub drop_stale : (ℕ → Bool) → ℕ → Heap → Heap
  unfolding pop
  drop_stale pending zero h = h
  drop_stale pending (suc fuel) h = elim (ltb 0 h.count) [
    | false ↦ h
    | true ↦ elim (pending (h.at 1)) [ true ↦ h | false ↦ drop_stale pending fuel (pop less h).0 ]
  ]

  unfoldable pub peek_pending : (ℕ → Bool) → Heap → Heap × Option ℕ
  unfolding drop_stale
  peek_pending pending h =
      let h' = drop_stale pending h.count h in
      if h'.count == 0 then (h', none) else (h', some (h'.at 1))

  -- The loop of `nextActivationPtrForModule`: entries are popped until one is pending.
  unfoldable pub take_pending : (ℕ → Bool) → ℕ → Heap → Heap × Option ℕ
  unfolding pop
  take_pending pending zero h = (h, none)
  take_pending pending (suc fuel) h = elim (pop less h).1 [
    | none ↦ (h, none)
    | some act ↦ elim (pending act) [
      | true ↦ ((pop less h).0, some act)
      | false ↦ take_pending pending fuel (pop less h).0
    ]
  ]

  unfoldable pub peek_for_module : Agenda → ModuleName → Agenda × Option ℕ
  unfolding lookup module_key peek_pending insert delete
  peek_for_module a m = elim (lookup (module_key m) a.module_queues) [
    | none ↦ (a, none)
    | some q ↦
        let (h, act) = peek_pending a.pending (heap_of a.index q) in
        (put_heap (module_key m) h a, act)
  ]

  abbrev pub consumed : Option ℕ → (ℕ → Bool) → ℕ → Bool
  consumed none pending x = pending x
  consumed (some act) pending x = if x == act then false else pending x

  unfoldable pub next_for_module : Agenda → ModuleName → Agenda × Option ℕ
  unfolding lookup module_key take_pending insert delete
  next_for_module a m = elim (lookup (module_key m) a.module_queues) [
    | none ↦ (a, none)
    | some q ↦
        if q.count == 0
        then (a, none)
        else let (h, act) = take_pending a.pending q.count (heap_of a.index q) in
          (record (put_heap (module_key m) h a) { pending = consumed act a.pending }, act)
  ]

  abbrev pub better : Option (ModuleName × ℕ) → ModuleName × ℕ → Option (ModuleName × ℕ)
  better none c = some c
  better (some b) c = if less c.1 b.1 then some c else some b

  pub record Scan : Type 0 where
    pub module_queues : Assoc ModuleName ModuleQueue
    pub index : ℕ → ℕ
    pub best : Option (ModuleName × ℕ)

  -- The loop of `nextQueue` over the map, in any order.
  unfoldable pub scan_queues :
      (ℕ → Bool) → Assoc ModuleName ModuleQueue → (ℕ → ℕ) → Option (ModuleName × ℕ) → Scan
  unfolding drop_stale
  scan_queues pending [] index best = record { module_queues = []; index = index; best = best }
  scan_queues pending ((m, q) ∷ rest) index best =
      let h = drop_stale pending q.count (heap_of index q) in
      let gone = scan_queues pending rest h.index best in
      let kept = scan_queues pending rest h.index (better best (m, h.at 1)) in
      if h.count == 0
      then gone
      else record kept { module_queues = (m, queue_of h) ∷ kept.module_queues }

  unfoldable pub next_queue : Agenda → Agenda × Option (ModuleName × ℕ)
  unfolding scan_queues
  next_queue a =
      let r = scan_queues a.pending a.module_queues a.index none in
      (record a { module_queues = r.module_queues; index = r.index }, r.best)
