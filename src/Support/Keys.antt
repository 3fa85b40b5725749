-- ===== src/Support/Keys.antt =====
-- The keys of the support indexes, and `slices.Sort` of support identifiers.
use gess.Prelude.{
  if◌then◌else◌, Bool, true, false, ◌&&◌, ◌||◌, ◌≡◌, refl, ◌↔◌, List, [], ◌∷◌, ℕ, Text, Eq, ◌==◌,
  nat_eq, list_eq, list_beq_iff, ltb, arith,
}
use gess.Prelude.Assoc.{contains}

pub record FactId : Type 0 where
  pub generation : ℕ
  pub sequence : ℕ

pub record IdentityKey : Type 0 where
  pub scope_hash : ℕ
  pub hash : ℕ

-- `logicalSupportSourceKey`.
pub record SourceKey : Type 0 where
  pub generation : ℕ
  pub rule_revision_id : Text
  pub identity_key : IdentityKey

abbrev pub fact_id_beq : FactId → FactId → Bool
fact_id_beq a b = (a.generation == b.generation) && (a.sequence == b.sequence)

pub fact_id_beq_iff : (a b : FactId) → (fact_id_beq a b ≡ true) ↔ (a ≡ b)
fact_id_beq_iff a b = ground arith

instance abbrev pub fact_id_eq : Eq FactId
fact_id_eq = record { beq = fact_id_beq; beq_iff = fact_id_beq_iff }

abbrev pub source_key_beq : SourceKey → SourceKey → Bool
source_key_beq a b =
    ((a.generation == b.generation) && (a.rule_revision_id == b.rule_revision_id))
    && ((a.identity_key.scope_hash == b.identity_key.scope_hash)
        && (a.identity_key.hash == b.identity_key.hash))

pub source_key_beq_iff : (a b : SourceKey) → (source_key_beq a b ≡ true) ↔ (a ≡ b)
source_key_beq_iff a b = ground (arith, list_beq_iff a.rule_revision_id b.rule_revision_id)

instance abbrev pub source_key_eq : Eq SourceKey
source_key_eq = record { beq = source_key_beq; beq_iff = source_key_beq_iff }

-- Strings in Go's order.
unfoldable pub text_leb : Text → Text → Bool
text_leb [] t = true
text_leb (c ∷ s) [] = false
text_leb (c ∷ s) (d ∷ t) = ltb c d || ((c == d) && text_leb s t)

unfoldable pub insert_sorted : Text → List Text → List Text
unfolding text_leb
insert_sorted s [] = s ∷ []
insert_sorted s (t ∷ ts) = if text_leb s t then s ∷ t ∷ ts else t ∷ insert_sorted s ts

unfoldable pub sort_texts : List Text → List Text
unfolding insert_sorted
sort_texts [] = []
sort_texts (s ∷ ts) = insert_sorted s (sort_texts ts)

contains-insert_sorted :
    (j s : Text) (ts : List Text) → contains j (insert_sorted s ts) ≡ (s == j) || contains j ts
unfolding insert_sorted contains
contains-insert_sorted j s [] = refl
contains-insert_sorted j s (t ∷ ts) = ground (arith, contains-insert_sorted j s ts)

-- Sorting keeps the elements.
pub contains-sort : (j : Text) (ts : List Text) → contains j (sort_texts ts) ≡ contains j ts
unfolding sort_texts contains
contains-sort j [] = refl
contains-sort j (t ∷ ts) =
    ground (arith, contains-insert_sorted j t (sort_texts ts), contains-sort j ts)
