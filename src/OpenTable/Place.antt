-- ===== src/OpenTable/Place.antt =====
-- `set` below its growth test: the key gets the bucket, and the table stays well-formed.
use gess.Prelude.{
  if◌then◌else◌, Bool-cases, true, false, ◌≡◌, refl, subst, sym, ap, ◌∙◌, inl, inr, List, [], ◌∷◌,
  ◌++◌, ℕ, ◌+◌, ◌%◌, ◌<◌, ◌≤◌, Option, some, Eq, ◌==◌, nat_eq, length, arith,
}
use native.Mathlib.Nat.{mod-lt}
use gess.Prelude.Assoc.{lookup, contains, contains-snoc}
use gess.OpenTable.Slots.{
  Slot, at, set_at, full, vacant, deleted, items, occupied, length-set_at, occupied-set_at,
  filled-set_at, at-set_at, full-low, lookup-set_at_other, is_vacant, is_full, holds, Distinct,
}
use gess.OpenTable.ProbeLaws.{Passed-turn}
use gess.OpenTable.InsertLaws.{find_insert-Placed, stuck, fresh, taken}
use gess.OpenTable.Capacity.{needs_grow}
use gess.OpenTable.Layout.{Reached, absent}
use gess.OpenTable.LayoutOps.{IsLaid-add, IsLaid-rewrite, lookup-put}
use gess.OpenTable.Table.{Table, write, place}
use gess.OpenTable.Invariant.{IsTable, contents}

module _ {ℓ κ} {K : Type ℓ} {V : Type κ} ⦃e : Eq K⦄ where
  -- What storing a bucket leaves.
  abbrev pub Stored : K → V → Table K V → Table K V → Type (ℓ ⊔ κ)
  Stored key bucket t u =
      (j : K) → lookup j (contents u) ≡ (if key == j then some bucket else lookup j (contents t))

  Stored-put :
      (xs : List (Slot K V)) (i : ℕ) (key : K) (bucket : V)
      → Distinct (set_at xs i (full key bucket))
      → i < length xs
      → ((j : K) → (key == j) ≡ false → holds j (at xs i) ≡ false)
      → (j : K)
      → lookup j (items (set_at xs i (full key bucket)))
        ≡ (if key == j then some bucket else lookup j (items xs))
  Stored-put xs i key bucket only low off j = elim (Bool-cases (key == j)) [
    | inl same ↦ rw (same, sym ((e.beq_iff key j).0 same)) (lookup-put xs i key bucket only low)
    | inr other ↦ rw other (lookup-set_at_other xs i (full key bucket) j (off j other) other)
  ]

  marks-write :
      (xs : List (Slot K V)) (touched : List ℕ) (i m : ℕ) (slot : Slot K V)
      → ((j : ℕ) → is_vacant (at xs j) ≡ false → contains j touched ≡ true)
      → i < length xs
      → is_vacant (at (set_at xs i slot) m) ≡ false
      → contains m (if is_vacant (at xs i) then touched ++ i ∷ [] else touched) ≡ true
  marks-write xs touched i m slot marks low seen =
      ground (arith, at-set_at xs i m slot low, marks m, marks i, contains-snoc i m touched)

  fresh-IsTable :
      (hash : K → ℕ) (t : Table K V) (key : K) (bucket : V) (i : ℕ)
      → IsTable hash t
      → needs_grow (t.used + 1) (length t.entries) ≡ false
      → i < length t.entries
      → is_full (at t.entries i) ≡ false
      → Reached t.entries (hash key) i
      → ((j : ℕ) (v : V) → at t.entries j ≡ full key v → ⊥)
      → IsTable hash (write key bucket t (i, false))
  unfolding write needs_grow
  fresh-IsTable hash t key bucket i h room low free reached never = record {
    sized = rw (length-set_at t.entries i (full key bucket)) h.sized;
    load = ground (arith, room, h.load, length-set_at t.entries i (full key bucket));
    used_lem = ground (arith, h.used_lem, occupied-set_at t.entries i (full key bucket) low);
    count_lem = ground (arith, h.count_lem, free, filled-set_at t.entries i (full key bucket) low);
    laid = IsLaid-add hash t.entries i key bucket h.laid low reached never;
    marks = λ m seen. marks-write t.entries t.touched i m (full key bucket) h.marks low seen;
  }

  taken-IsTable :
      (hash : K → ℕ) (t : Table K V) (key : K) (old bucket : V) (i : ℕ)
      → IsTable hash t
      → at t.entries i ≡ full key old
      → IsTable hash (record t { entries = set_at t.entries i (full key bucket) })
  taken-IsTable hash t key old bucket i h here =
      let low = full-low t.entries i key old here in
      let solid = ap is_vacant here in
      let counted = ap is_full here in
      record {
        sized = rw (length-set_at t.entries i (full key bucket)) h.sized;
        load = omega (arith, h.load, length-set_at t.entries i (full key bucket));
        used_lem =
            ground (arith, h.used_lem, solid, occupied-set_at t.entries i (full key bucket) low);
        count_lem =
            ground (arith, h.count_lem, counted, filled-set_at t.entries i (full key bucket) low);
        laid = IsLaid-rewrite hash t.entries i key old bucket h.laid here;
        marks = λ m seen.
            ground
              (arith, at-set_at t.entries i m (full key bucket) low, h.marks m, h.marks i, solid);
      }

  -- The result of a `set` that need not grow.
  abbrev pub SetIn : (K → ℕ) → K → V → Table K V → Option (Table K V) → Type (ℓ ⊔ κ)
  SetIn hash key bucket t result =
      (u : Table K V) × (result ≡ some u)
      × IsTable hash u
      × Stored key bucket t u
      × (length u.entries ≡ length t.entries)
      × (u.used ≤ t.used + 1)

  room_left :
      (hash : K → ℕ) (t : Table K V)
      → IsTable hash t
      → needs_grow (t.used + 1) (length t.entries) ≡ false
      → occupied t.entries < length t.entries
  unfolding needs_grow
  room_left hash t h room = ground (arith, room, h.used_lem)

  holds-free : (j : K) (slot : Slot K V) → is_full slot ≡ false → holds j slot ≡ false
  holds-free j vacant h = refl
  holds-free j (full k v) h = ground (arith, h)
  holds-free j deleted h = refl

  fresh-SetIn :
      (hash : K → ℕ) (t : Table K V) (key : K) (bucket : V) (i : ℕ)
      → IsTable hash t
      → needs_grow (t.used + 1) (length t.entries) ≡ false
      → i < length t.entries
      → is_full (at t.entries i) ≡ false
      → Reached t.entries (hash key) i
      → ((j : ℕ) (v : V) → at t.entries j ≡ full key v → ⊥)
      → SetIn hash key bucket t (some (write key bucket t (i, false)))
  unfolding write
  fresh-SetIn hash t key bucket i h room low spare reached never =
      let tidy = fresh-IsTable hash t key bucket i h room low spare reached never in
      (
        write key bucket t (i, false),
        refl,
        tidy,
        Stored-put t.entries i key bucket tidy.laid.only low
            (λ j other. holds-free j (at t.entries i) spare),
        length-set_at t.entries i (full key bucket),
        ground arith,
      )

  taken-SetIn :
      (hash : K → ℕ) (t : Table K V) (key : K) (old bucket : V) (i : ℕ)
      → IsTable hash t
      → at t.entries i ≡ full key old
      → SetIn hash key bucket t (some (write key bucket t (i, true)))
  unfolding write
  taken-SetIn hash t key old bucket i h here =
      let tidy = taken-IsTable hash t key old bucket i h here in
      (
        record t { entries = set_at t.entries i (full key bucket) },
        rw here refl,
        tidy,
        Stored-put t.entries i key bucket tidy.laid.only (full-low t.entries i key old here)
            (λ j other. ap (holds j) here ∙ other),
        length-set_at t.entries i (full key bucket),
        omega arith,
      )

  pub place-SetIn :
      (hash : K → ℕ) (t : Table K V) (key : K) (bucket : V)
      → IsTable hash t
      → needs_grow (t.used + 1) (length t.entries) ≡ false
      → SetIn hash key bucket t (place hash key bucket t)
  unfolding place
  place-SetIn hash t key bucket h room =
      let slots = length t.entries in
      elim (find_insert-Placed hash t.entries key) [
        | stuck e past ↦
            elim (Passed-turn key t.entries (hash key) (room_left hash t h room) past) [ ]
        | fresh c i e past free (b, less, here, spare) ↦
            rw (place, e)
              (fresh-SetIn hash t key bucket i h room
                (subst (λ m. m < slots) here
                  (mod-lt (hash key + b) {m = slots} (omega (arith, room_left hash t h room))))
                spare (b, here, λ a up. (past a (omega (arith, up, less))).0)
                (absent hash t.entries key c h.laid past free))
        | taken c v e past here ↦
            rw (place, e) (taken-SetIn hash t key v bucket ((hash key + c) % slots) h here)
      ]
