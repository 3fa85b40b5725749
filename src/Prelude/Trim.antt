-- ===== src/Prelude/Trim.antt =====
-- Trimming twice is trimming once.
use Prim.Native.Nat.{◌≤◌}
use mathlib.Core.Path.{◌≡◌, refl, ap, ◌∙◌, sym}
use mathlib.Core.Logic.{inl, inr}
use mathlib.Core.List.{[], ◌∷◌, ◌++◌, reverse, reverse-append, reverse-reverse}
use native.Mathlib.Omega.{arith}
use gess.Prelude.Tests.{Bool-cases}
use Prim.Native.Nat.{ℕ}
use mathlib.Core.Path.{subst}
use mathlib.Core.Bool.{false}
use mathlib.Core.Option.{some}
use gess.Prelude.Lists.{length, last?, init, last?-split}
use gess.Prelude.Strings.{Text, is_space, trim_left, trim_right, trim_space}

length-trim_left : (s : Text) → length (trim_left s) ≤ length s
unfolding trim_left
length-trim_left [] = omega arith
length-trim_left (c ∷ s) = ground (arith, length-trim_left s)

trim_left-trim_left : (s : Text) → trim_left (trim_left s) ≡ trim_left s
unfolding trim_left
trim_left-trim_left [] = refl
trim_left-trim_left (c ∷ s) = ground (arith, trim_left-trim_left s)

-- A beginning of a text that starts with no space starts with none either.
trim_left-prefix : (s r : Text) → trim_left (s ++ r) ≡ s ++ r → trim_left s ≡ s
unfolding trim_left
trim_left-prefix [] r h = refl
trim_left-prefix (c ∷ s) r h = ground (arith, length-trim_left (s ++ r), ap length h)

-- What `trim_left` takes away stands in front.
trimmed : (s : Text) → (w : Text) × (s ≡ w ++ trim_left s)
unfolding trim_left
trimmed [] = ([], refl)
trimmed (c ∷ s) =
    let (w, e) = trimmed s in
    elim (Bool-cases (is_space c)) [ inl h ↦ (c ∷ w, rw h (ap (◌∷◌ c) e)) | inr h ↦ ([], rw h) ]

trim_right_prefix : (s : Text) → (w : Text) × (s ≡ trim_right s ++ w)
unfolding trim_right
trim_right_prefix s =
    let (w, e) = trimmed (reverse s) in
    (reverse w, sym (reverse-reverse s) ∙ ap reverse e ∙ reverse-append w (trim_left (reverse s)))

trim_left-trim_right : (s : Text) → trim_left s ≡ s → trim_left (trim_right s) ≡ trim_right s
trim_left-trim_right s h =
    let (w, e) = trim_right_prefix s in
    trim_left-prefix (trim_right s) w (ap trim_left (sym e) ∙ h ∙ e)

trim_right-trim_right : (s : Text) → trim_right (trim_right s) ≡ trim_right s
unfolding trim_right
trim_right-trim_right s =
    ap (λ t. reverse (trim_left t)) (reverse-reverse (trim_left (reverse s)))
    ∙ ap reverse (trim_left-trim_left (reverse s))

pub trim_space-trim_space : (s : Text) → trim_space (trim_space s) ≡ trim_space s
unfolding trim_space
trim_space-trim_space s =
    ap trim_right (trim_left-trim_right (trim_left s) (trim_left-trim_left s))
    ∙ trim_right-trim_right (trim_left s)

trim_right-trimmed : (s : Text) → trim_space s ≡ s → trim_right s ≡ s
unfolding trim_space
trim_right-trimmed s h = ap trim_right (sym h) ∙ trim_right-trim_right (trim_left s) ∙ h

first_not_space : (c : ℕ) (s : Text) → trim_left (c ∷ s) ≡ c ∷ s → is_space c ≡ false
unfolding trim_left
first_not_space c s h = ground (arith, length-trim_left s, ap length h)

-- A trimmed text does not end in a space.
pub last_not_space : (s : Text) (c : ℕ) → trim_space s ≡ s → last? s ≡ some c → is_space c ≡ false
unfolding trim_right
last_not_space s c h e =
    first_not_space c (reverse (init s)) (subst (λ r. trim_left r ≡ r) turned kept)
  where
    turned : reverse s ≡ c ∷ reverse (init s)
    turned = ap reverse (last?-split s c e) ∙ reverse-append (init s) (c ∷ [])

    kept : trim_left (reverse s) ≡ reverse s
    kept = sym (reverse-reverse (trim_left (reverse s))) ∙ ap reverse (trim_right-trimmed s h)
