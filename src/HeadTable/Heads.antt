-- ===== src/HeadTable/Heads.antt =====
-- Reading and writing the heads, and how many there are.
use gess.Prelude.{
  if◌then◌else◌, Bool-cases, ◌≡◌, refl, ◌∙◌, inl, inr, ◌==◌, nat_eq, List, [], ◌∷◌, ℕ, zero, suc,
  ◌+◌, ◌<◌, ◌≤◌, length, leb, arith,
}
use gess.Prelude.Assoc.{contains}
use gess.HeadTable.{head_at, put_head, no_heads, wipe_heads}

-- How many slots have a head.
abbrev pub live : List ℕ → ℕ
live [] = 0
live (x ∷ xs) = if x == 0 then live xs else suc (live xs)

pub length-put_head : (xs : List ℕ) (i head : ℕ) → length (put_head xs i head) ≡ length xs
length-put_head [] i head = refl
length-put_head (x ∷ xs) zero head = refl
length-put_head (x ∷ xs) (suc i) head = omega (arith, length-put_head xs i head)

pub head_at-put_head :
    (xs : List ℕ) (i j head : ℕ)
    → i < length xs
    → head_at (put_head xs i head) j ≡ (if i == j then head else head_at xs j)
head_at-put_head [] i j head low = omega (arith, low)
head_at-put_head (x ∷ xs) zero zero head low = refl
head_at-put_head (x ∷ xs) zero (suc j) head low = ground arith
head_at-put_head (x ∷ xs) (suc i) zero head low = ground arith
head_at-put_head (x ∷ xs) (suc i) (suc j) head low = ground (arith, head_at-put_head xs i j head)

pub live-put_head :
    (xs : List ℕ) (i head : ℕ)
    → i < length xs
    → live (put_head xs i head) + (if head_at xs i == 0 then 0 else 1)
      ≡ live xs + (if head == 0 then 0 else 1)
live-put_head [] i head low = omega (arith, low)
live-put_head (x ∷ xs) zero head low = ground arith
live-put_head (x ∷ xs) (suc i) head low = ground (arith, live-put_head xs i head)

pub live-no_heads : (n : ℕ) → live (no_heads n) ≡ 0
live-no_heads zero = refl
live-no_heads (suc n) = live-no_heads n

pub head_at-no_heads : (n i : ℕ) → head_at (no_heads n) i ≡ 0
head_at-no_heads zero i = refl
head_at-no_heads (suc n) zero = refl
head_at-no_heads (suc n) (suc i) = head_at-no_heads n i

pub length-wipe_heads : (touched xs : List ℕ) → length (wipe_heads touched xs) ≡ length xs
unfolding wipe_heads
length-wipe_heads [] xs = refl
length-wipe_heads (i ∷ touched) xs = elim (Bool-cases (leb (length xs) i)) [
  | inl out ↦ rw out (length-wipe_heads touched xs)
  | inr low ↦ rw low (length-wipe_heads touched (put_head xs i 0) ∙ length-put_head xs i 0)
]

head_at-out : (xs : List ℕ) (i : ℕ) → length xs ≤ i → head_at xs i ≡ 0
head_at-out [] i out = refl
head_at-out (x ∷ xs) zero out = omega (arith, out)
head_at-out (x ∷ xs) (suc i) out = head_at-out xs i (omega (arith, out))

-- A slot is emptied where it is touched, and else kept.
pub head_at-wipe_heads :
    (touched xs : List ℕ) (j : ℕ)
    → head_at (wipe_heads touched xs) j ≡ (if contains j touched then 0 else head_at xs j)
unfolding wipe_heads contains
head_at-wipe_heads [] xs j = refl
head_at-wipe_heads (i ∷ touched) xs j = elim (Bool-cases (leb (length xs) i)) [
  | inl out ↦ rw out (head_at-wipe_heads touched xs j ∙ ground (arith, head_at-out xs j, out))
  | inr low ↦ rw low (
      head_at-wipe_heads touched (put_head xs i 0) j
      ∙ ground (arith, head_at-put_head xs i j 0 (ground (arith, low))))
]

pub live-zero : (xs : List ℕ) → ((i : ℕ) → head_at xs i ≡ 0) → live xs ≡ 0
live-zero [] h = refl
live-zero (x ∷ xs) h = ground (arith, h 0, live-zero xs (λ i. h (suc i)))
