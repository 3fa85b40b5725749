-- ===== src/Sexp/Layout/Words.antt =====
-- What the loops of the lexer (internal/gesssexp/parser.go) take from a text that goes on.
use gess.Prelude.{
  ◌∷◌, ◌++◌, Bool-cases, true, false, Option, some, List, [], ℕ, zero, suc, ◌-◌, ◌<◌, ◌≤◌, ◌≡◌,
  refl, ◌∙◌, ap, inl, inr, append_assoc, append-nil, arith, Text, length, drop, take, length-append,
  ◌==◌, nat_eq,
}
use gess.Sexp.Syntax.{done, string_token, Position, newline, advance, advance_all, is_delimiter}
use gess.Sexp.Lexer.{take_line, take_word, token, string_loop}
use gess.Sexp.Layout.{none_of, is_newline, apart, breaks}

pub take_line-breaks :
    (c s : Text) (p : Position)
    → none_of is_newline c ≡ true
    → breaks s ≡ true
    → take_line (c ++ s) p ≡ (c, s, advance_all c p)
unfolding take_line none_of advance_all breaks
take_line-breaks [] [] p h b = cc
take_line-breaks [] (r ∷ s) p h b = rw b
take_line-breaks (r ∷ c) s p h b = elim (Bool-cases (r == newline)) [
  | inl e ↦ ground (arith)
  | inr e ↦ rw (e, take_line-breaks c s (advance r p) (ground arith) b)
]

pub take_word-apart :
    (t s : Text) (p : Position)
    → none_of is_delimiter t ≡ true
    → apart s ≡ true
    → take_word (t ++ s) p ≡ (t, s, advance_all t p)
unfolding take_word none_of advance_all apart
take_word-apart [] [] p h a = refl
take_word-apart [] (c ∷ s) p h a = rw a
take_word-apart (r ∷ t) s p h a = elim (Bool-cases (is_delimiter r)) [
  | inl e ↦ ground (arith)
  | inr e ↦ rw (e, take_word-apart t s (advance r p) (ground arith) a)
]

pub drop-length {ℓ} : {A : Type ℓ} (w s : List A) → drop (length w) (w ++ s) ≡ s
drop-length [] s = refl
drop-length (x ∷ w) s = drop-length w s

pub length-append-minus {ℓ} : {A : Type ℓ} (w s : List A) → length (w ++ s) - length s ≡ length w
length-append-minus w s = omega (arith, length-append w s)

-- What is documented of `strconv.Quote` and `strconv.UnquoteChar`: a quoted text is its characters
-- between quotes, each as it is or as an escape that is read back.
pub data IsQuoted (unquote_char : Text → Option (ℕ × Text)) (c : ℕ) : Text → Type 0 where
  plain : (c == b'"') ≡ false → (c == b'\\') ≡ false → IsQuoted unquote_char c (c ∷ [])
  escape :
      (d : ℕ) (w : Text)
      → ((s : Text) → unquote_char (b'\\' ∷ (d ∷ (w ++ s))) ≡ some (c, s))
      → IsQuoted unquote_char c (b'\\' ∷ (d ∷ w))

abbrev pub flat : (ℕ → Text) → Text → Text
flat q [] = []
flat q (c ∷ s) = q c ++ flat q s

pub record Quotes (quote : Text → Text) (unquote_char : Text → Option (ℕ × Text)) : Type 0 where
  pub quoted_char : ℕ → Text
  pub quote_lem : (s : Text) → quote s ≡ b'"' ∷ (flat quoted_char s ++ b'"' ∷ [])
  pub each : (c : ℕ) → IsQuoted unquote_char c (quoted_char c)

quoted_pos : {u : Text → Option (ℕ × Text)} {c : ℕ} {w : Text} → IsQuoted u c w → 0 < length w
quoted_pos (plain a e) = omega arith
quoted_pos (escape d w back) = omega arith

pub length-flat :
    {u : Text → Option (ℕ × Text)} (q : ℕ → Text)
    → ((c : ℕ) → IsQuoted u c (q c))
    → (t s : Text) → length t ≤ length (flat q t ++ s)
length-flat q each [] s = omega arith
length-flat q each (c ∷ t) s =
    let longer = length-flat q each t s in
    rw (append_assoc (q c) (flat q t) s)
      (omega (arith, longer, quoted_pos (each c), length-append (q c) (flat q t ++ s)))

module _ (unquote_char : Text → Option (ℕ × Text)) (name : Text) where
  -- The loop of a string reads one quoted character.
  string_loop-quoted :
      {c : ℕ} {w : Text}
      → IsQuoted unquote_char c w
      → (f : ℕ) (start : Position) (b s : Text) (p : Position)
      → (q : Position) × (string_loop unquote_char name (suc f) start b (w ++ s) p
          ≡ string_loop unquote_char name f start (b ++ c ∷ []) s q)
  unfolding string_loop
  string_loop-quoted {c} (plain a e) f start b s p = (advance c p, rw (string_loop, a, e))
  string_loop-quoted {c} (escape d w back) f start b s p = (
    advance_all (take (length (b'\\' ∷ (d ∷ (w ++ s))) - length s) (b'\\' ∷ (d ∷ (w ++ s)))) p,
    rw (string_loop, back s, length-append-minus (b'\\' ∷ (d ∷ w)) s, drop-length w s),
  )

  -- The loop reads the rest of a quoted text.
  pub string_loop-flat :
      (q : ℕ → Text)
      → ((c : ℕ) → IsQuoted unquote_char c (q c))
      → (t : Text) (f : ℕ) (start : Position) (b s : Text) (p : Position) → length t < f
      → (at : Position) × (string_loop unquote_char name f start b (flat q t ++ b'"' ∷ s) p
          ≡ done (token unquote_char name string_token (b ++ t) start at, s, at))
  string_loop-flat q each t zero start b s p h = absurd (omega arith)
  string_loop-flat q each [] (suc f) start b s p h =
      (advance b'"' p, unfold string_loop in rw append-nil)
  string_loop-flat q each (c ∷ t) (suc f) start b s p h =
      let (at, one) = string_loop-quoted (each c) f start b (flat q t ++ b'"' ∷ s) p in
      let (end, all) = string_loop-flat q each t f start (b ++ c ∷ []) s at (omega arith) in
      (
        end,
        ap (λ u. string_loop unquote_char name (suc f) start b u p)
              (append_assoc (q c) (flat q t) (b'"' ∷ s))
            ∙ one
            ∙ all
            ∙ ap (λ u. done (token unquote_char name string_token u start end, s, end))
                (append_assoc b (c ∷ []) t),
      )
