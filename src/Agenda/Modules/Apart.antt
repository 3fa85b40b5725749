-- ===== src/Agenda/Modules/Apart.antt =====
-- The queues of an agenda share the places of its activations.
use gess.Prelude.{
  ◌≡◌, refl, ap, ◌∙◌, sym, Bool, true, Option, [], ◌∷◌, ℕ, ◌==◌, nat_eq, Bool-cases, inl, inr, ◌⊎◌,
  arith,
}
use gess.Prelude.Assoc.{Assoc}
use gess.Module.{ModuleName}
use gess.Agenda.Heap.{Heap}
use gess.Agenda.Heap.Order.{IsLess, Holds}
use gess.Agenda.Heap.Queue.{IsQueue, at-Holds}
use gess.Agenda.Modules.{ModuleQueue, heap_of, queue_of, drop_stale, scan_queues, better}
use gess.Agenda.Modules.Pending.{Drops, drop_stale-Drops, none_held}

module _ (less : ℕ → ℕ → Bool) (laws : IsLess less) where
  -- The activation is in the queue of the module, among these queues.
  abbrev pub IsHeldIn : (ℕ → ℕ) → Assoc ModuleName ModuleQueue → ModuleName × ℕ → Type 0
  IsHeldIn index [] e = ⊥
  IsHeldIn index ((m, q) ∷ rest) e =
      ((m ≡ e.0) × Holds (heap_of index q) e.1) ⊎ IsHeldIn index rest e

  -- Every queue is in order, and no activation is in two of them.
  abbrev pub AreOrderly : (ℕ → ℕ) → Assoc ModuleName ModuleQueue → Type 0
  AreOrderly index [] = Unit {0}
  AreOrderly index ((m, q) ∷ rest) =
      IsQueue less (heap_of index q)
      × ((e : ModuleName × ℕ) → IsHeldIn index rest e → ¬ Holds (heap_of index q) e.1)
      × AreOrderly index rest

  -- Where another queue has changed only the places of what it held: the other queues hold the
  -- same and are as orderly as before.
  pub held-after :
      (qs : Assoc ModuleName ModuleQueue) (index index' : ℕ → ℕ) (Gone : ℕ → Type 0)
      → ((x : ℕ) → ¬ Gone x → index' x ≡ index x)
      → ((e : ModuleName × ℕ) → IsHeldIn index qs e → ¬ Gone e.1)
      → (e : ModuleName × ℕ) → IsHeldIn index qs e
      → IsHeldIn index' qs e
  held-after [] index index' Gone same apart e k = elim k [ ]
  held-after ((m, q) ∷ rest) index index' Gone same apart e (inl (n, h)) =
      inl (n, ground (arith, same e.1 (apart e (inl (n, h))), h))
  held-after ((m, q) ∷ rest) index index' Gone same apart e (inr k) =
      inr (held-after rest index index' Gone same (λ f l. apart f (inr l)) e k)

  place-before :
      (q : ModuleQueue) (index index' : ℕ → ℕ) (x : ℕ)
      → IsQueue less (heap_of index q)
      → Holds (heap_of index' q) x
      → Holds (heap_of index q) x
  place-before q index index' x v (low, high, here) =
      let was : index x ≡ index' x = sym (ap index here) ∙ v.indexed (index' x) low high in
      (omega (arith, was, low), omega (arith, was, high), ap q.at was ∙ here)

  pub held-before :
      (qs : Assoc ModuleName ModuleQueue) (index index' : ℕ → ℕ)
      → AreOrderly index qs
      → (e : ModuleName × ℕ) → IsHeldIn index' qs e
      → IsHeldIn index qs e
  held-before [] index index' v e k = elim k [ ]
  held-before ((m, q) ∷ rest) index index' v e (inl (n, h)) =
      inl (n, place-before q index index' e.1 v.0 h)
  held-before ((m, q) ∷ rest) index index' v e (inr k) = inr (held-before rest index index' v.2 e k)

  pub AreOrderly-after :
      (qs : Assoc ModuleName ModuleQueue) (index index' : ℕ → ℕ) (Gone : ℕ → Type 0)
      → ((x : ℕ) → ¬ Gone x → index' x ≡ index x)
      → ((e : ModuleName × ℕ) → IsHeldIn index qs e → ¬ Gone e.1)
      → AreOrderly index qs
      → AreOrderly index' qs
  AreOrderly-after [] index index' Gone same apart v = tt
  AreOrderly-after ((m, q) ∷ rest) index index' Gone same apart (v, w, vs) = (
    record {
      indexed = λ i p r.
          same (q.at i)
            (apart (m, q.at i) (inl (refl, at-Holds less laws i (heap_of index q) v.indexed p r)))
          ∙ v.indexed i p r;
      ordered = v.ordered;
    },
    λ e k h. w e (held-before rest index index' vs e k) (place-before q index index' e.1 v h),
    AreOrderly-after rest index index' Gone same (λ e k. apart e (inr k)) vs,
  )

  module _ (pending : ℕ → Bool) where
    -- A scan takes no pending activation out of the queues, and moves only what they hold.
    pub record Keeps (qs qs' : Assoc ModuleName ModuleQueue) (index index' : ℕ → ℕ) : Type 0 where
      pub kept :
          (e : ModuleName × ℕ) → IsHeldIn index qs e → pending e.1 ≡ true → IsHeldIn index' qs' e
      pub frame : (x : ℕ) → ((m : ModuleName) → ¬ IsHeldIn index qs (m, x)) → index' x ≡ index x

    module _ (m : ModuleName) (q : ModuleQueue) (rest qs' : Assoc ModuleName ModuleQueue)
        (index index' : ℕ → ℕ) (v : IsQueue less (heap_of index q))
        (apart : (e : ModuleName × ℕ) → IsHeldIn index rest e → ¬ Holds (heap_of index q) e.1)
        (vs : AreOrderly index rest) where
      abbrev d : Heap
      d = drop_stale less pending q.count (heap_of index q)

      drops : Drops less laws pending (heap_of index q) d
      drops = (drop_stale-Drops less laws pending q.count (heap_of index q) (omega arith) v).0

      later : (e : ModuleName × ℕ) → IsHeldIn index rest e → IsHeldIn d.index rest e
      later = held-after rest index d.index (Holds (heap_of index q)) drops.frame apart

      frame-after :
          Keeps rest qs' d.index index'
          → (x : ℕ) → ((n : ModuleName) → ¬ IsHeldIn index ((m, q) ∷ rest) (n, x))
          → index' x ≡ index x
      frame-after s x none_hold =
          s.frame x (λ n k. none_hold n (inr (held-before rest index d.index vs (n, x) k)))
          ∙ drops.frame x (λ h. none_hold m (inl (refl, h)))

      Keeps-gone :
          d.count ≡ 0 → Keeps rest qs' d.index index' → Keeps ((m, q) ∷ rest) qs' index index'
      Keeps-gone z s = record {
        kept = λ e k p. elim k [
          | inl (_, h) ↦ absurd (cc (none_held less laws pending _ d e.1 drops z h, p))
          | inr k' ↦ s.kept e (later e k') p
        ];
        frame = frame-after s;
      }

      stays :
          Keeps rest qs' d.index index'
          → (x : ℕ) → Holds (heap_of index q) x
          → Holds d x
          → Holds (heap_of index' (queue_of d)) x
      stays s x was (low, high, here) =
          let same : index' x ≡ d.index x =
            s.frame x (λ n k. apart (n, x) (held-before rest index d.index vs (n, x) k) was) in
          (omega (arith, same, low), omega (arith, same, high), ap d.at same ∙ here)

      Keeps-kept :
          Keeps rest qs' d.index index' → Keeps ((m, q) ∷ rest) ((m, queue_of d) ∷ qs') index index'
      Keeps-kept s = record {
        kept = λ e k p. elim k [
          | inl (n, h) ↦ inl (n, stays s e.1 h (drops.kept e.1 h p))
          | inr k' ↦ inr (s.kept e (later e k') p)
        ];
        frame = frame-after s;
      }

    pub scan-Keeps :
        (qs : Assoc ModuleName ModuleQueue) (index : ℕ → ℕ) (best : Option (ModuleName × ℕ))
        → AreOrderly index qs
        → let r = scan_queues less pending qs index best in Keeps qs r.module_queues index r.index
    unfolding scan_queues
    scan-Keeps [] index best v = record { kept = λ e k p. k; frame = λ x h. refl }
    scan-Keeps ((m, q) ∷ rest) index best (v, apart, vs) =
        let d' = drop_stale less pending q.count (heap_of index q) in
        let after =
          AreOrderly-after rest index d'.index (Holds (heap_of index q))
            (drops m q rest [] index index v apart vs).frame apart vs in
        elim (Bool-cases (d'.count == 0)) [
          | inl z ↦
              rw (z, scan_queues)
                (Keeps-gone m q rest _ index _ v apart vs (ground (arith, z))
                  (scan-Keeps rest d'.index best after))
          | inr z ↦
              rw (z, scan_queues)
                (Keeps-kept m q rest _ index _ v apart vs
                  (scan-Keeps rest d'.index (better less best (m, d'.at 1)) after))
        ]
