-- ===== src/OpenTable/Reserve.antt =====
-- `reserve` of the four tables keeps what they hold, and so they do what a map does.
use gess.Prelude.{
  if◌then◌else◌, Bool-cases, ◌≡◌, refl, sym, ap, ◌∙◌, inl, inr, ℕ, Option, some, leb, length, Eq,
}
use gess.Support.Keys.{fact_id_eq}
use gess.OpenTable.Capacity.{slot_capacity}
use gess.OpenTable.Table
use gess.OpenTable.Table.{Table}
use gess.OpenTable.Invariant.{IsTable}
use gess.OpenTable.Reads.{get-lookup}
use gess.OpenTable.Rehash.{rehash-lookup}
use gess.OpenTable.DemandSupport
use gess.OpenTable.DemandSupport.{DemandSupportTable, SupportKey, support_key_eq, hash_support_key}
use gess.OpenTable.DemandFact
use gess.OpenTable.DemandFact.{DemandFactTable, hash_fact_support_key}
use gess.OpenTable.TokenIdentity
use gess.OpenTable.TokenIdentity.{TokenIdentityTable, TokenKey, token_key_eq, hash_token_key}
use gess.OpenTable.FactToken
use gess.OpenTable.FactToken.{FactTokenTable, hash_fact_key}

module _ {ℓ κ} {K : Type ℓ} {V : Type κ} ⦃same : Eq K⦄ (hash : K → ℕ) where
  -- The call returns a well-formed table that answers every `get` as before.
  abbrev pub Reserves : Table K V → Option (Table K V) → Type (ℓ ⊔ κ)
  Reserves t r =
      (u : Table K V) × (r ≡ some u)
      × IsTable hash u
      × ((j : K) → Table.get hash u j ≡ Table.get hash t j)

  Reserves-some : (t : Table K V) → IsTable hash t → Reserves t (some t)
  Reserves-some t h = (t, refl, h, λ j. refl)

  rehash-Reserves :
      (capacity : ℕ) (t : Table K V) → IsTable hash t → Reserves t (Table.rehash hash capacity t)
  rehash-Reserves capacity t h =
      let (u, e, tidy, kept) = rehash-lookup hash capacity t h in
      (u, e, tidy, λ j. get-lookup hash u j tidy ∙ ap some (kept j) ∙ sym (get-lookup hash t j h))

  -- `reserve` of the demand tables, and of the token tables.
  demand-Reserves :
      (capacity : ℕ) (t : Table K V)
      → IsTable hash t
      → Reserves t (
          if leb capacity 0
          then some t
          else if leb (slot_capacity capacity) (length t.entries)
          then some t
          else Table.rehash hash (slot_capacity capacity) t)
  demand-Reserves capacity t h = elim (Bool-cases (leb capacity 0)) [
    | inl small ↦ rw small (Reserves-some t h)
    | inr large ↦ elim (Bool-cases (leb (slot_capacity capacity) (length t.entries))) [
      | inl fits ↦ rw (large, fits) (Reserves-some t h)
      | inr grows ↦ rw (large, grows) (rehash-Reserves (slot_capacity capacity) t h)
    ]
  ]

  token-Reserves :
      (capacity : ℕ) (t : Table K V)
      → IsTable hash t
      → Reserves t (if leb capacity 0 then some t else Table.rehash hash (slot_capacity capacity) t)
  token-Reserves capacity t h = elim (Bool-cases (leb capacity 0)) [
    | inl small ↦ rw small (Reserves-some t h)
    | inr large ↦ rw large (rehash-Reserves (slot_capacity capacity) t h)
  ]

-- Reserving room in any of the four tables returns and changes no answer.
pub reserve-Reserves :
    (capacity : ℕ) (a : DemandSupportTable) (b : DemandFactTable) (c : TokenIdentityTable)
    (d : FactTokenTable)
    → IsTable hash_support_key a
    → IsTable hash_fact_support_key b
    → IsTable hash_token_key c
    → IsTable hash_fact_key d
    → Reserves hash_support_key a (DemandSupport.reserve capacity a)
      × Reserves hash_fact_support_key b (DemandFact.reserve capacity b)
      × Reserves hash_token_key c (TokenIdentity.reserve capacity c)
      × Reserves hash_fact_key d (FactToken.reserve capacity d)
unfolding DemandSupport.reserve DemandSupport.rehash DemandFact.reserve DemandFact.rehash
    TokenIdentity.reserve TokenIdentity.rehash FactToken.reserve FactToken.rehash
reserve-Reserves capacity a b c d ha hb hc hd = (
  demand-Reserves hash_support_key capacity a ha,
  demand-Reserves hash_fact_support_key capacity b hb,
  token-Reserves hash_token_key capacity c hc,
  token-Reserves hash_fact_key capacity d hd,
)
