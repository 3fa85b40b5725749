-- ===== src/Agenda/Modules/Choice.antt =====
-- `nextQueue`: the choice among the modules.
use gess.Prelude.{
  ◌≡◌, refl, ap, ◌∙◌, sym, Bool, false, Option, none, some, [], ◌∷◌, ℕ, ◌==◌, nat_eq, Bool-cases,
  inl, inr, ◌⊎◌, true, subst, ◌<◌, arith,
}
use gess.Prelude.Assoc.{Assoc}
use gess.Module.{ModuleName}
use gess.Agenda.Heap.{Heap}
use gess.Agenda.Heap.Order.{IsLess, Holds}
use gess.Agenda.Heap.Queue.{IsQueue}
use gess.Agenda.Modules.{Agenda, ModuleQueue, heap_of, drop_stale, better, scan_queues, next_queue}
use gess.Agenda.Modules.Apart.{
  IsHeldIn, AreOrderly, held-after, held-before, AreOrderly-after, scan-Keeps,
}
use gess.Agenda.Modules.Pending.{Drops, drop_stale-Drops, root-IsChosen, none_held}

module _ (less : ℕ → ℕ → Bool) (laws : IsLess less) where
  -- Nothing fires before the choice where it is compared with `x`.
  abbrev pub Precedes : Option (ModuleName × ℕ) → ℕ → Type 0
  Precedes none x = ⊥
  Precedes (some b) x = less x b.1 ≡ false

  less_self : (x : ℕ) → less x x ≡ false
  less_self x = elim (Bool-cases (less x x)) [ inl e ↦ laws.asym x x e | inr e ↦ e ]

  better-Precedes :
      (best : Option (ModuleName × ℕ)) (c : ModuleName × ℕ)
      → Precedes (better less best c) c.1
        × ((x : ℕ) → Precedes best x → Precedes (better less best c) x)
  better-Precedes none c = (less_self c.1, λ x. absurd)
  better-Precedes (some b) c = elim (Bool-cases (less c.1 b.1)) [
    | inl e ↦ rw e (less_self c.1, λ x h. laws.not_less_trans x b.1 c.1 h (laws.asym c.1 b.1 e))
    | inr e ↦ rw e (e, λ x h. h)
  ]

  better-first :
      (best : Option (ModuleName × ℕ)) (c : ModuleName × ℕ) (x : ℕ)
      → less x c.1 ≡ false
      → Precedes (better less best c) x
  better-first none c x h = h
  better-first (some b) c x h = elim (Bool-cases (less c.1 b.1)) [
    | inl e ↦ rw e h
    | inr e ↦ rw e (laws.not_less_trans x c.1 b.1 h e)
  ]

  better-some :
      (best : Option (ModuleName × ℕ)) (c b : ModuleName × ℕ)
      → better less best c ≡ some b
      → (best ≡ some b) ⊎ (c ≡ b)
  better-some none c b e = inr (cc e)
  better-some (some o) c b e = elim (Bool-cases (less c.1 o.1)) [
    | inl k ↦ let new : better less (some o) c ≡ some c = rw k refl in inr (cc (new, e))
    | inr k ↦ let old : better less (some o) c ≡ some o = rw k refl in inl (sym old ∙ e)
  ]

  module _ (pending : ℕ → Bool) where
    scan-Precedes :
        (qs : Assoc ModuleName ModuleQueue) (index : ℕ → ℕ) (best : Option (ModuleName × ℕ)) (x : ℕ)
        → Precedes best x
        → Precedes (scan_queues less pending qs index best).best x
    unfolding scan_queues
    scan-Precedes [] index best x h = h
    scan-Precedes ((m, q) ∷ rest) index best x h =
        let d = drop_stale less pending q.count (heap_of index q) in
        elim (Bool-cases (d.count == 0)) [
          | inl z ↦ rw (z, scan_queues) (scan-Precedes rest d.index best x h)
          | inr z ↦
              rw (z, scan_queues)
                (scan-Precedes rest d.index (better less best (m, d.at 1)) x
                  ((better-Precedes best (m, d.at 1)).1 x h))
        ]

    -- What a scan chooses, which starts with the choice `best`.
    record Scanned (qs : Assoc ModuleName ModuleQueue) (index : ℕ → ℕ)
        (best chosen : Option (ModuleName × ℕ)) : Type 0 where
      first :
          (e : ModuleName × ℕ)
          → IsHeldIn less laws index qs e
          → pending e.1 ≡ true
          → Precedes chosen e.1
      held :
          (b : ModuleName × ℕ)
          → chosen ≡ some b
          → (best ≡ some b) ⊎ (IsHeldIn less laws index qs b × (pending b.1 ≡ true))

    module _ (m : ModuleName) (q : ModuleQueue) (rest : Assoc ModuleName ModuleQueue)
        (index : ℕ → ℕ) (best chosen : Option (ModuleName × ℕ)) (v : IsQueue less (heap_of index q))
        (apart : (e : ModuleName × ℕ)
          → IsHeldIn less laws index rest e
          → ¬ Holds (heap_of index q) e.1)
        (vs : AreOrderly less laws index rest) where
      abbrev d : Heap
      d = drop_stale less pending q.count (heap_of index q)

      drops : Drops less laws pending (heap_of index q) d × (0 < d.count → pending (d.at 1) ≡ true)
      drops = drop_stale-Drops less laws pending q.count (heap_of index q) (omega arith) v

      same : (x : ℕ) → ¬ Holds (heap_of index q) x → d.index x ≡ index x
      same = drops.0.frame

      scan-gone :
          (d.count == 0) ≡ true
          → Scanned rest d.index best chosen
          → Scanned ((m, q) ∷ rest) index best chosen
      scan-gone z s = record {
        first = λ e k p. elim k [
          | inl (_, h) ↦
              absurd (cc (none_held less laws pending _ d e.1 drops.0 (ground (arith, z)) h, p))
          | inr k' ↦ s.first e (held-after less laws rest index d.index _ same apart e k') p
        ];
        held = λ b c. elim (s.held b c) [
          | inl e ↦ inl e
          | inr (k, p) ↦ inr (inr (held-before less laws rest index d.index vs b k), p)
        ];
      }

      scan-kept :
          (d.count == 0) ≡ false
          → Scanned rest d.index (better less best (m, d.at 1)) chosen
          → ((x : ℕ) → Precedes (better less best (m, d.at 1)) x → Precedes chosen x)
          → Scanned ((m, q) ∷ rest) index best chosen
      scan-kept z s on =
          let n : 0 < d.count = ground (arith, z) in
          let (c, _) = root-IsChosen less laws pending _ d drops.0 n (drops.1 n) in
          record {
            first = λ e k p. elim k [
              | inl (_, h) ↦ on e.1 (better-first best (m, d.at 1) e.1 (c.first e.1 h p))
              | inr k' ↦ s.first e (held-after less laws rest index d.index _ same apart e k') p
            ];
            held = λ b ch. elim (s.held b ch) [
              | inl e ↦ elim (better-some best (m, d.at 1) b e) [
                | inl before ↦ inl before
                | inr now ↦ inr (
                  inl (
                    ap (λ t. t.0) now,
                    subst (Holds (heap_of index q)) (ap (λ t. t.1) now) c.held,
                  ),
                  subst (λ x. pending x ≡ true) (ap (λ t. t.1) now) c.is_pending,
                )
              ]
              | inr (k, p) ↦ inr (inr (held-before less laws rest index d.index vs b k), p)
            ];
          }

    scan-Scanned :
        (qs : Assoc ModuleName ModuleQueue) (index : ℕ → ℕ) (best : Option (ModuleName × ℕ))
        → AreOrderly less laws index qs
        → Scanned qs index best (scan_queues less pending qs index best).best
    unfolding scan_queues
    scan-Scanned [] index best v = record { first = λ e k p. elim k [ ]; held = λ b e. inl e }
    scan-Scanned ((m, q) ∷ rest) index best (v, apart, vs) =
        let d' = drop_stale less pending q.count (heap_of index q) in
        let after =
          AreOrderly-after less laws rest index d'.index (Holds (heap_of index q))
            (same m q rest index best none v apart vs) apart vs in
        elim (Bool-cases (d'.count == 0)) [
          | inl z ↦
              rw (z, scan_queues)
                (scan-gone m q rest index best _ v apart vs z
                  (scan-Scanned rest d'.index best after))
          | inr z ↦
              let next = better less best (m, d'.at 1) in
              rw (z, scan_queues)
                (scan-kept m q rest index best _ v apart vs z
                  (scan-Scanned rest d'.index next after) (λ x. scan-Precedes rest d'.index next x))
        ]

  -- A choice among all pending activations of the queues: one of them, before which none fires,
  -- and none only where there is none; and none is lost.
  pub record IsChoice (a a' : Agenda) (choice : Option (ModuleName × ℕ)) : Type 0 where
    pub first :
        (e : ModuleName × ℕ)
        → IsHeldIn less laws a.index a.module_queues e
        → a.pending e.1 ≡ true
        → Precedes choice e.1
    pub held :
        (b : ModuleName × ℕ)
        → choice ≡ some b
        → IsHeldIn less laws a.index a.module_queues b × (a.pending b.1 ≡ true)
    pub kept :
        (e : ModuleName × ℕ)
        → IsHeldIn less laws a.index a.module_queues e
        → a.pending e.1 ≡ true
        → IsHeldIn less laws a'.index a'.module_queues e

  -- Under a strict weak order, in an agenda whose queues are in order and of which no two hold one
  -- activation, and in whatever order `nextQueue` meets the queues: it chooses a pending activation
  -- in the queue of its module, before which no pending activation of any queue fires, and it
  -- chooses nothing only where no queue holds a pending activation. Every pending activation stays
  -- in its queue.
  pub next_queue-first :
      (a : Agenda)
      → AreOrderly less laws a.index a.module_queues
      → IsChoice a (next_queue less a).0 (next_queue less a).1
  unfolding next_queue
  next_queue-first a v =
      let s = scan-Scanned a.pending a.module_queues a.index none v in
      record {
        first = s.first;
        held = λ b e. elim (s.held b e) [ inl n ↦ absurd (cc n) | inr k ↦ k ];
        kept = (scan-Keeps less laws a.pending a.module_queues a.index none v).kept;
      }
