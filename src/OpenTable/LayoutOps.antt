-- ===== src/OpenTable/LayoutOps.antt =====
-- Writing a new key, a new bucket or a deletion mark keeps the slots laid out.
use gess.Prelude.{
  if◌then◌else◌, ◌≡◌, ◌≢◌, refl, sym, ◌∙◌, ap, subst, ◌⊎◌, inl, inr, List, ℕ, ◌<◌, none, some,
  Bool-cases, ==_refl, Eq, ◌==◌, nat_eq, length, arith, Option-cases,
}
use gess.Prelude.Assoc.{lookup}
use gess.OpenTable.Slots.{
  Slot, full, deleted, at, set_at, items, Distinct, at-set_at, full-low, lookup-items-some,
  lookup-items_full,
}
use gess.OpenTable.Layout.{IsLaid, Reached, Reached-set_at}

same_index {ℓ} : {A : Type ℓ} (i : ℕ) (x y : A) → (if i == i then x else y) ≡ x
same_index i x y = rw (==_refl i) refl

module _ {ℓ κ} {K : Type ℓ} {V : Type κ} where
  set_at-cases :
      (xs : List (Slot K V)) (i j : ℕ) (slot : Slot K V) (k : K) (v : V)
      → i < length xs
      → at (set_at xs i slot) j ≡ full k v
      → ((i ≡ j) × (slot ≡ full k v)) ⊎ ((i ≢ j) × (at xs j ≡ full k v))
  set_at-cases xs i j slot k v low h =
      let written = at-set_at xs i j slot low in
      elim (Bool-cases (i == j)) [
        | inl same ↦ inl (
          ground arith,
          sym (subst (λ t. at (set_at xs i slot) j ≡ (if t then slot else at xs j)) same written)
              ∙ h,
        )
        | inr other ↦ inr (
          ground arith,
          sym (subst (λ t. at (set_at xs i slot) j ≡ (if t then slot else at xs j)) other written)
              ∙ h,
        )
      ]

  deleted-full : (k : K) (v : V) → ◌≡◌ {A = Slot K V} deleted (full k v) → ⊥
  deleted-full k v h = cc

  full-key : (k j : K) (v w : V) → ◌≡◌ {A = Slot K V} (full k v) (full j w) → k ≡ j
  full-key k j v w h = cc

  Distinct-set_at :
      (xs : List (Slot K V)) (i : ℕ) (slot : Slot K V)
      → Distinct xs
      → i < length xs
      → ((k : K) (v w : V) (j : ℕ) → slot ≡ full k v → at xs j ≡ full k w → i ≢ j → ⊥)
      → Distinct (set_at xs i slot)
  Distinct-set_at xs i slot only low alone a b k v w h g =
      elim (set_at-cases xs i a slot k v low h) [
        | inl (here, e) ↦ elim (set_at-cases xs i b slot k w low g) [
          | inl (there, f) ↦ sym here ∙ there
          | inr (away, f) ↦ elim (alone k v w b e f away) [ ]
        ]
        | inr (away, e) ↦ elim (set_at-cases xs i b slot k w low g) [
          | inl (there, f) ↦ elim (alone k w v a f e away) [ ]
          | inr (off, f) ↦ only a b k v w e f
        ]
      ]

  -- A key is written where its probe reaches, and stands in no other slot.
  IsLaid-put :
      (hash : K → ℕ) (xs : List (Slot K V)) (i : ℕ) (key : K) (bucket : V)
      → IsLaid hash xs
      → i < length xs
      → Reached xs (hash key) i
      → ((w : V) (j : ℕ) → at xs j ≡ full key w → i ≢ j → ⊥)
      → IsLaid hash (set_at xs i (full key bucket))
  IsLaid-put hash xs i key bucket laid low reached alone = record {
    reach = λ j k v h. elim (set_at-cases xs i j (full key bucket) k v low h) [
      | inl (here, e) ↦
          subst (λ m. Reached (set_at xs i (full key bucket)) (hash m) j)
            (full-key key k bucket v e)
            (subst (Reached (set_at xs i (full key bucket)) (hash key)) here
              (Reached-set_at xs i (full key bucket) (hash key) i low refl reached))
      | inr (away, e) ↦
          Reached-set_at xs i (full key bucket) (hash k) j low refl (laid.reach j k v e)
    ];
    only = Distinct-set_at xs i (full key bucket) laid.only low (λ k v w j e f away.
        alone w j (f ∙ ap (λ m. full m w) (sym (full-key key k bucket v e))) away);
  }

  -- A slot gets a key that stands nowhere.
  pub IsLaid-add :
      (hash : K → ℕ) (xs : List (Slot K V)) (i : ℕ) (key : K) (bucket : V)
      → IsLaid hash xs
      → i < length xs
      → Reached xs (hash key) i
      → ((j : ℕ) (v : V) → at xs j ≡ full key v → ⊥)
      → IsLaid hash (set_at xs i (full key bucket))
  IsLaid-add hash xs i key bucket laid low reached never =
      IsLaid-put hash xs i key bucket laid low reached (λ w j f away. never j w f)

  -- The slot of a key gets another bucket.
  pub IsLaid-rewrite :
      (hash : K → ℕ) (xs : List (Slot K V)) (i : ℕ) (key : K) (old bucket : V)
      → IsLaid hash xs
      → at xs i ≡ full key old
      → IsLaid hash (set_at xs i (full key bucket))
  IsLaid-rewrite hash xs i key old bucket laid here =
      IsLaid-put hash xs i key bucket laid (full-low xs i key old here) (laid.reach i key old here)
        (λ w j f away. away (laid.only i j key old w here f))

  -- A slot is marked deleted.
  pub IsLaid-mark :
      (hash : K → ℕ) (xs : List (Slot K V)) (i : ℕ)
      → IsLaid hash xs
      → i < length xs
      → IsLaid hash (set_at xs i deleted)
  IsLaid-mark hash xs i laid low = record {
    reach = λ j k v h. elim (set_at-cases xs i j deleted k v low h) [
      | inl (same, e) ↦ elim (deleted-full k v e) [ ]
      | inr (away, e) ↦ Reached-set_at xs i deleted (hash k) j low refl (laid.reach j k v e)
    ];
    only = Distinct-set_at xs i deleted laid.only low (λ k v w j e f away. deleted-full k v e);
  }

module _ {ℓ κ} {K : Type ℓ} {V : Type κ} ⦃e : Eq K⦄ where
  -- What is found for the key afterwards.
  pub lookup-put :
      (xs : List (Slot K V)) (i : ℕ) (key : K) (bucket : V)
      → Distinct (set_at xs i (full key bucket))
      → i < length xs
      → lookup key (items (set_at xs i (full key bucket))) ≡ some bucket
  lookup-put xs i key bucket only low =
      lookup-items_full (set_at xs i (full key bucket)) key bucket i only
        (at-set_at xs i i (full key bucket) low ∙ same_index i (full key bucket) (at xs i))

  pub lookup-mark :
      (xs : List (Slot K V)) (i : ℕ) (key : K) (old : V)
      → Distinct xs
      → at xs i ≡ full key old
      → lookup key (items (set_at xs i deleted)) ≡ none
  lookup-mark xs i key old only here =
      elim (Option-cases (lookup key (items (set_at xs i deleted)))) [
        | inl gone ↦ gone
        | inr (v, e) ↦
            let (j, there) = lookup-items-some (set_at xs i deleted) key v e in
            elim (set_at-cases xs i j deleted key v (full-low xs i key old here) there) [
              | inl (same, f) ↦ elim (deleted-full key v f) [ ]
              | inr (away, f) ↦ elim (away (only i j key old v here f)) [ ]
            ]
      ]
