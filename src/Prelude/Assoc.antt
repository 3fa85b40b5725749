-- ===== src/Prelude/Assoc.antt =====
-- Go maps as association lists: what `m[k]`, `m[k] = v` and `delete(m, k)` do.
use mathlib.Core.Path.{◌≡◌, refl}
use mathlib.Core.Bool.{Bool, false, ◌||◌}
use Prim.Native.Nat.{ℕ, suc}
use gess.Prelude.Lists.{length}
use mathlib.Core.List.{List, [], ◌∷◌, ◌++◌}
use mathlib.Core.Option.{Option, none, some}
use native.Mathlib.Omega.{arith}
use gess.Prelude.Tests.{Eq, ◌==◌, nat_eq, if◌then◌else◌}

abbrev pub Assoc {ℓ κ} : Type ℓ → Type κ → Type (ℓ ⊔ κ)
Assoc K V = List (K × V)

module _ {ℓ κ} {K : Type ℓ} {V : Type κ} ⦃e : Eq K⦄ where
  unfoldable pub lookup : K → Assoc K V → Option V
  lookup key [] = none
  lookup key ((entry, value) ∷ others) = if entry == key then some value else lookup key others

  unfoldable pub insert : K → V → Assoc K V → Assoc K V
  insert key value [] = (key, value) ∷ []
  insert key value ((entry, old) ∷ others) =
      if entry == key then (key, value) ∷ others else (entry, old) ∷ insert key value others

  unfoldable pub delete : K → Assoc K V → Assoc K V
  delete k [] = []
  delete k ((j, w) ∷ m) = let rest = delete k m in if j == k then rest else (j, w) ∷ rest

  pub lookup-insert :
      (k j : K) (new : V) (entries : Assoc K V)
      → lookup j (insert k new entries) ≡ (if k == j then some new else lookup j entries)
  unfolding insert lookup
  lookup-insert k j new [] = refl
  lookup-insert k j new ((i, old) ∷ entries) =
      ground (arith, lookup-insert k j new entries, e.beq_iff i k, e.beq_iff i j, e.beq_iff k j)

  pub lookup-delete :
      (k j : K) (m : Assoc K V) → lookup j (delete k m) ≡ (if k == j then none else lookup j m)
  unfolding lookup delete
  lookup-delete k j [] = ground arith
  lookup-delete k j ((i, w) ∷ m) =
      ground (arith, e.beq_iff k j, e.beq_iff i k, e.beq_iff i j, lookup-delete k j m)

  -- No key stands twice.
  abbrev pub Unique : Assoc K V → Type κ
  Unique [] = Unit
  Unique ((k, v) ∷ m) = (lookup k m ≡ none) × Unique m

  pub Unique-delete : (k : K) (m : Assoc K V) → Unique m → Unique (delete k m)
  unfolding delete
  Unique-delete k [] u = tt
  Unique-delete k ((j, w) ∷ m) u = ground (arith, u.0, u.1, Unique-delete k m, lookup-delete k j m)

  pub Unique-insert : (k : K) (v : V) (m : Assoc K V) → Unique m → Unique (insert k v m)
  unfolding insert
  Unique-insert k v [] u = unfold lookup in (refl, tt)
  Unique-insert k v ((j, w) ∷ m) u =
      ground
        (arith, u.0, u.1, e.beq_iff j k, e.beq_iff k j, Unique-insert k v m, lookup-insert k j v m)

  pub length-insert_new :
      (k : K) (v : V) (m : Assoc K V) → lookup k m ≡ none → length (insert k v m) ≡ suc (length m)
  unfolding insert lookup
  length-insert_new k v [] h = refl
  length-insert_new k v ((j, w) ∷ m) h = ground (arith, length-insert_new k v m)

  delete_missing : (k : K) (m : Assoc K V) → lookup k m ≡ none → delete k m ≡ m
  unfolding delete lookup
  delete_missing k [] h = refl
  delete_missing k ((j, w) ∷ m) h = ground (arith, delete_missing k m)

  pub length-delete :
      (k : K) (v : V) (m : Assoc K V)
      → Unique m
      → lookup k m ≡ some v
      → length m ≡ suc (length (delete k m))
  unfolding delete lookup
  length-delete k v [] u h = cc
  length-delete k v ((j, w) ∷ m) u h =
      ground (arith, u.0, u.1, e.beq_iff j k, length-delete k v m, delete_missing k m)

module _ {ℓ} {K : Type ℓ} ⦃e : Eq K⦄ where
  -- The sets that maps to `struct{}` are: lists in which `contains` looks for a key.
  unfoldable pub contains : K → List K → Bool
  contains k [] = false
  contains k (j ∷ ks) = (j == k) || contains k ks

  unfoldable pub set_insert : K → List K → List K
  unfolding contains
  set_insert k ks = if contains k ks then ks else k ∷ ks

  unfoldable pub set_delete : K → List K → List K
  set_delete k [] = []
  set_delete k (j ∷ ks) = let rest = set_delete k ks in if j == k then rest else j ∷ rest

  pub contains-insert :
      (k j : K) (ks : List K) → contains j (set_insert k ks) ≡ (k == j) || contains j ks
  unfolding set_insert contains
  contains-insert k j ks = ground (arith, e.beq_iff k j)

  pub contains-delete :
      (k j : K) (ks : List K)
      → contains j (set_delete k ks) ≡ (if k == j then false else contains j ks)
  unfolding set_delete contains
  contains-delete k j [] = ground arith
  contains-delete k j (i ∷ ks) =
      ground (arith, e.beq_iff k j, e.beq_iff i k, e.beq_iff i j, contains-delete k j ks)

pub contains-snoc : (i m : ℕ) (xs : List ℕ) → contains m (xs ++ i ∷ []) ≡ contains m xs || (i == m)
unfolding contains
contains-snoc i m [] = ground arith
contains-snoc i m (x ∷ xs) = ground (arith, contains-snoc i m xs)
