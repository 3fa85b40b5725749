-- ===== src/OpenTable/Runs.antt =====
-- Sequences of operations on an open-addressing table, against the map that they stand for.
use gess.Prelude.{
  if◌then◌else◌, ◌≡◌, refl, sym, ap, ◌∙◌, List, [], ◌∷◌, ℕ, Option, none, some, Eq, ◌==◌, nat_eq,
}
use gess.Prelude.Assoc.{Assoc, lookup, insert, delete, lookup-insert, lookup-delete}
use gess.OpenTable.Table.{Table, empty, get, set, rehash, clear, is_empty}
use gess.OpenTable.Table
use gess.OpenTable.Invariant.{IsTable, contents, empty-IsTable}
use gess.OpenTable.Reads.{get-lookup, delete-lookup}
use gess.OpenTable.Rehash.{set-lookup, rehash-lookup}
use gess.OpenTable.Clear.{clear-contents}

-- The calls that change a table.
pub data Call {ℓ κ} (K : Type ℓ) (V : Type κ) : Type (ℓ ⊔ κ) where
  call_set : K → V → Call K V
  call_delete : K → Call K V
  call_clear : Call K V
  call_rehash : ℕ → Call K V

module _ {ℓ κ} {K : Type ℓ} {V : Type κ} ⦃same : Eq K⦄ where
  -- A call on the table, and on the map.
  unfoldable pub call : (K → ℕ) → Call K V → Table K V → Option (Table K V)
  call hash (call_set key bucket) t = set hash 2 key bucket t
  call hash (call_delete key) t = Table.delete hash t key
  call hash call_clear t = some (clear t)
  call hash (call_rehash capacity) t = rehash hash capacity t

  unfoldable pub effect : Call K V → Assoc K V → Assoc K V
  effect (call_set key bucket) m = insert key bucket m
  effect (call_delete key) m = delete key m
  effect call_clear m = []
  effect (call_rehash capacity) m = m

  unfoldable pub calls : (K → ℕ) → List (Call K V) → Table K V → Option (Table K V)
  calls hash [] t = some t
  calls hash (c ∷ cs) t = elim (call hash c t) [ none ↦ none | some u ↦ calls hash cs u ]

  unfoldable pub effects : List (Call K V) → Assoc K V → Assoc K V
  effects [] m = m
  effects (c ∷ cs) m = effects cs (effect c m)

  -- The table holds what the map holds.
  abbrev pub Agrees : Table K V → Assoc K V → Type (ℓ ⊔ κ)
  Agrees t m = (j : K) → lookup j (contents t) ≡ lookup j m

  call-effect :
      (hash : K → ℕ) (c : Call K V) (t : Table K V) (m : Assoc K V)
      → IsTable hash t
      → Agrees t m
      → (u : Table K V) × (call hash c t ≡ some u) × IsTable hash u × Agrees u (effect c m)
  unfolding call effect
  call-effect hash (call_set key bucket) t m h agree =
      let (u, e, tidy, stored) = set-lookup hash 0 t key bucket h in
      (
        u,
        e,
        tidy,
        λ j.
            stored j
            ∙ ap (λ o. if key == j then some bucket else o) (agree j)
            ∙ sym (lookup-insert key j bucket m),
      )
  call-effect hash (call_delete key) t m h agree =
      let (u, e, tidy, gone) = delete-lookup hash t key h in
      (
        u,
        e,
        tidy,
        λ j.
            gone j ∙ ap (λ o. if key == j then none else o) (agree j) ∙ sym (lookup-delete key j m),
      )
  call-effect hash call_clear t m h agree =
      let (tidy, bare, slots) = clear-contents hash t h in
      (clear t, refl, tidy, λ j. ap (lookup j) bare)
  call-effect hash (call_rehash capacity) t m h agree =
      let (u, e, tidy, kept) = rehash-lookup hash capacity t h in
      (u, e, tidy, λ j. kept j ∙ agree j)

  calls-effects_from :
      (hash : K → ℕ) (cs : List (Call K V)) (t : Table K V) (m : Assoc K V)
      → IsTable hash t
      → Agrees t m
      → (u : Table K V) × (calls hash cs t ≡ some u) × IsTable hash u × Agrees u (effects cs m)
  unfolding calls effects
  calls-effects_from hash [] t m h agree = (t, refl, h, agree)
  calls-effects_from hash (c ∷ cs) t m h agree =
      let (u, e, tidy, after) = call-effect hash c t m h agree in
      let (w, f, sound, end) = calls-effects_from hash cs u (effect c m) tidy after in
      (w, rw (calls, e) f, sound, end)

  -- From an empty table every sequence of set, delete, clear and rehash calls returns, whatever the
  -- hash function, to a well-formed table, in which get returns for each key what a finite map has
  -- after the same updates.
  pub calls-effects :
      (hash : K → ℕ) (cs : List (Call K V))
      → (u : Table K V) × (calls hash cs empty ≡ some u)
        × IsTable hash u
        × ((j : K) → get hash u j ≡ some (lookup j (effects cs [])))
  calls-effects hash cs =
      let (u, e, tidy, agree) =
        calls-effects_from hash cs empty [] (empty-IsTable hash) (λ j. refl) in
      (u, e, tidy, λ j. get-lookup hash u j tidy ∙ ap some (agree j))
