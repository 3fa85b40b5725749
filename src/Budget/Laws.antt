-- ===== src/Budget/Laws.antt =====
-- What the counters say after a cascade.
use Prim.Native.Nat.{max, min}
use gess.Prelude.{
  if◌then◌else◌, ◌&&◌, ◌≡◌, refl, ap, ◌∙◌, ℕ, ◌+◌, ◌-◌, zero, suc, Option, none, some, leb, ltb,
  arith,
}
use gess.Budget.{
  DemandCounters, Budget, LimitError, new_budget, start_cascade, consume, consume_times,
}

-- The steps that are granted of `n` that are asked for.
abbrev pub granted : ℕ → ℕ → ℕ
granted zero n = n
granted (suc l) n = min (suc l) n

-- What a budget says after `n` steps were asked for, from the counters `c` on: the steps taken, one
-- cascade if any step was asked for, the steps, the longest cascade, and the refused steps.
pub record IsCounted (limit n : ℕ) (c : DemandCounters) (b : Budget) : Type 0 where
  pub counted_taken : b.taken ≡ granted limit n
  pub counted_cascades : b.counters.cascades ≡ c.cascades + min 1 n
  pub counted_steps : b.counters.steps ≡ c.steps + granted limit n
  pub counted_length : b.counters.length_max ≡ max c.length_max (granted limit n)
  pub counted_hits : b.counters.limit_hits ≡ c.limit_hits + (n - granted limit n)
  pub counted_started : b.started ≡ ltb 0 n

consume-IsCounted :
    (limit n : ℕ) (c : DemandCounters) (b : Budget)
    → IsCounted limit n c b
    → IsCounted limit (suc n) c (consume limit b).0
unfolding consume start_cascade
consume-IsCounted zero n c b h = record {
  counted_taken = ground (arith, h.counted_taken);
  counted_cascades = ground (arith, h.counted_cascades, h.counted_started);
  counted_steps = ground (arith, h.counted_steps);
  counted_length = ground (arith, h.counted_length, h.counted_taken);
  counted_hits = ground (arith, h.counted_hits);
  counted_started = ground (arith, h.counted_started);
}
consume-IsCounted (suc l) n c b h = record {
  counted_taken = ground (arith, h.counted_taken);
  counted_cascades = ground (arith, h.counted_cascades, h.counted_started);
  counted_steps = ground (arith, h.counted_steps, h.counted_taken);
  counted_length = ground (arith, h.counted_length, h.counted_taken);
  counted_hits = ground (arith, h.counted_hits, h.counted_taken);
  counted_started = ground (arith, h.counted_started);
}

-- Of `n` steps that a new budget is asked for, it grants all without a limit, and else as many as
-- the limit allows; it counts one cascade if any step was asked for, the granted steps, the longest
-- cascade, and each refused step as a limit hit.
pub consume_times-IsCounted :
    (limit n : ℕ) (c : DemandCounters) → IsCounted limit n c (consume_times limit n (new_budget c))
unfolding consume_times new_budget
consume_times-IsCounted zero zero c = record {
  counted_taken = refl;
  counted_cascades = omega arith;
  counted_steps = omega arith;
  counted_length = omega arith;
  counted_hits = omega arith;
  counted_started = refl;
}
consume_times-IsCounted (suc l) zero c = record {
  counted_taken = omega arith;
  counted_cascades = omega arith;
  counted_steps = omega arith;
  counted_length = omega arith;
  counted_hits = omega arith;
  counted_started = refl;
}
consume_times-IsCounted limit (suc n) c =
    consume-IsCounted limit n c (consume_times limit n (new_budget c))
      (consume_times-IsCounted limit n c)

-- The error of a budget that has taken so many steps.
abbrev refusal : ℕ → ℕ → Option LimitError
refusal limit taken =
    if ltb 0 limit && leb limit taken
    then some (record { limit = limit; error_steps = taken })
    else none

consume-refuses : (limit : ℕ) (b : Budget) → (consume limit b).1 ≡ refusal limit b.taken
unfolding consume start_cascade
consume-refuses limit b = ground arith

refusal-min :
    (l n : ℕ)
    → refusal (suc l) (min (suc l) n) ≡ (
        if ltb 0 (suc l) && leb (suc l) n
        then some (record { limit = suc l; error_steps = suc l })
        else none)
refusal-min l n = ground arith

-- The next step is refused just where there is a limit and it is used up, and the error tells both.
pub consume_times-error :
    (limit n : ℕ) (c : DemandCounters)
    → (consume limit (consume_times limit n (new_budget c))).1 ≡ (
        if ltb 0 limit && leb limit n
        then some (record { limit = limit; error_steps = limit })
        else none)
consume_times-error zero n c = consume-refuses zero (consume_times zero n (new_budget c))
consume_times-error (suc l) n c =
    consume-refuses (suc l) (consume_times (suc l) n (new_budget c))
    ∙ ap (refusal (suc l)) (consume_times-IsCounted (suc l) n c).counted_taken
    ∙ refusal-min l n
