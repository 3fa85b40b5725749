-- ===== src/Sexp/Layout/Lexed.antt =====
-- The tokens of the lexer (internal/gesssexp/parser.go) are well formed: an atom is a word, a comment
-- starts with a semicolon and stays on its line.
use gess.Prelude.{
  ◌||◌, Bool, true, false, Bool-cases, Option, Option-cases, [], ◌∷◌, ◌++◌, ℕ, zero, suc, ◌-◌, ◌==◌,
  nat_eq, ◌≡◌, refl, ap, subst, ◌∙◌, sym, inl, inr, reverse, reverse-append, reverse-reverse, arith,
  Text, is_space, length, take, drop,
}
use gess.Sexp.Syntax.{
  Outcome, done, failed, out_of_fuel, Token, TokenKind, atom_token, comment_token, Position,
  advance, advance_all, is_delimiter,
}
use gess.Sexp.Lexer.{
  take_line, take_word, drop_blanks, trim_blanks, token, string_loop, lex_comment, lex_word,
  next_token,
}
use gess.Sexp.Layout.{none_of, is_newline, is_word}
use gess.Sexp.Parser.{is_empty}
use gess.Sexp.Layout.Tokens.{next_token-plain, no_delimiter}
use gess.Sexp.Layout.Formed.{is_comment, is_comment_of}

-- A property of the result, where there is one.
abbrev pub Ensures {ℓ} : {A : Type 0} → (A → Type ℓ) → Outcome A → Type ℓ
Ensures P (done a) = P a
Ensures P (failed e) = Unit
Ensures P out_of_fuel = Unit

abbrev pub text_formed : TokenKind → Text → Bool
text_formed atom_token text = is_word text
text_formed comment_token text = is_comment text
text_formed _ text = true

abbrev pub token_formed : Token → Bool
token_formed tok = text_formed tok.kind tok.text

take_line-none_of : (s : Text) (p : Position) → none_of is_newline (take_line s p).0 ≡ true
unfolding take_line none_of
take_line-none_of [] p = refl
take_line-none_of (r ∷ s) p = ground (arith, take_line-none_of s (advance r p))

take_word-none_of : (s : Text) (p : Position) → none_of is_delimiter (take_word s p).0 ≡ true
unfolding take_word none_of
take_word-none_of [] p = refl
take_word-none_of (r ∷ s) p = ground (arith, take_word-none_of s (advance r p))

none_of-append :
    (stops : ℕ → Bool) (s t : Text)
    → none_of stops s ≡ true
    → none_of stops t ≡ true
    → none_of stops (s ++ t) ≡ true
unfolding none_of
none_of-append stops [] t h k = k
none_of-append stops (c ∷ s) t h k = ground (arith, none_of-append stops s t)

none_of-reverse :
    (stops : ℕ → Bool) (s : Text) → none_of stops s ≡ true → none_of stops (reverse s) ≡ true
unfolding none_of
none_of-reverse stops [] h = refl
none_of-reverse stops (c ∷ s) h = rw (reverse-append (c ∷ []) s) (
    none_of-append stops (reverse s) (c ∷ []) (none_of-reverse stops s (ground arith))
      (ground arith))

none_of-drop_blanks :
    (stops : ℕ → Bool) (s : Text) → none_of stops s ≡ true → none_of stops (drop_blanks s) ≡ true
unfolding none_of drop_blanks
none_of-drop_blanks stops [] h = refl
none_of-drop_blanks stops (c ∷ s) h = ground (arith, none_of-drop_blanks stops s)

drop_blanks-semicolon : (s : Text) → drop_blanks (s ++ b';' ∷ []) ≡ drop_blanks s ++ b';' ∷ []
unfolding drop_blanks
drop_blanks-semicolon [] = refl
drop_blanks-semicolon (c ∷ s) = ground (arith, drop_blanks-semicolon s)

trim_blanks-semicolon :
    (s : Text) → trim_blanks (b';' ∷ s) ≡ b';' ∷ reverse (drop_blanks (reverse s))
unfolding trim_blanks
trim_blanks-semicolon s =
    ap (λ t. reverse (drop_blanks t)) (reverse-append (b';' ∷ []) s)
    ∙ ap reverse (drop_blanks-semicolon (reverse s))
    ∙ reverse-append (drop_blanks (reverse s)) (b';' ∷ [])

pub is_empty-trim_blanks : (s : Text) → is_empty (trim_blanks (b';' ∷ s)) ≡ false
is_empty-trim_blanks s = rw (trim_blanks-semicolon s) refl

drop_blanks-drop_blanks : (s : Text) → drop_blanks (drop_blanks s) ≡ drop_blanks s
unfolding drop_blanks
drop_blanks-drop_blanks [] = refl
drop_blanks-drop_blanks (c ∷ s) = elim (Bool-cases (c == 0x20 || c == 0x09 || c == 0x0d)) [
  | inl e ↦ rw (drop_blanks, e) (drop_blanks-drop_blanks s)
  | inr e ↦ rw (drop_blanks, e) (rw (drop_blanks, e) refl)
]

trim_blanks-trim_blanks : (s : Text) → trim_blanks (trim_blanks s) ≡ trim_blanks s
unfolding trim_blanks
trim_blanks-trim_blanks s =
    ap (λ t. reverse (drop_blanks t)) (reverse-reverse (drop_blanks (reverse s)))
    ∙ ap reverse (drop_blanks-drop_blanks (reverse s))

-- A comment without the blanks at its end is a comment.
is_comment-trim_blanks :
    (s : Text) → none_of is_newline s ≡ true → is_comment (trim_blanks (b';' ∷ s)) ≡ true
is_comment-trim_blanks s h =
    let body = reverse (drop_blanks (reverse s)) in
    let kept =
      none_of-reverse is_newline (drop_blanks (reverse s))
        (none_of-drop_blanks is_newline (reverse s) (none_of-reverse is_newline s h)) in
    let trimmed : trim_blanks (b';' ∷ body) ≡ b';' ∷ body =
      ap trim_blanks (sym (trim_blanks-semicolon s))
      ∙ trim_blanks-trim_blanks (b';' ∷ s)
      ∙ trim_blanks-semicolon s in
    rw (trim_blanks-semicolon s) (is_comment_of body kept trimmed)

module _ (unquote_char : Text → Option (ℕ × Text)) (name : Text) where
  abbrev LexesFormed : Outcome (Token × Text × Position) → Type 0
  LexesFormed r = Ensures (λ (tok, s, at). token_formed tok ≡ true) r

  string_loop-formed :
      (f : ℕ) (start : Position) (b s : Text) (p : Position)
      → LexesFormed (string_loop unquote_char name f start b s p)
  unfolding string_loop token
  string_loop-formed zero start b s p = tt
  string_loop-formed (suc f) start b [] p = tt
  string_loop-formed (suc f) start b (r ∷ []) p = elim (Bool-cases (r == b'"')) [
    | inl e ↦ rw (string_loop, e) refl
    | inr e ↦ elim (Bool-cases (r == b'\\')) [
      | inl k ↦ rw (string_loop, e, k) tt
      | inr k ↦ rw (string_loop, e, k) (string_loop-formed f start (b ++ r ∷ []) [] (advance r p))
    ]
  ]
  string_loop-formed (suc f) start b (r ∷ (c ∷ cs)) p = elim (Bool-cases (r == b'"')) [
    | inl e ↦ rw (string_loop, e) refl
    | inr e ↦ elim (Bool-cases (r == b'\\')) [
      | inr k ↦
          rw (string_loop, e, k) (string_loop-formed f start (b ++ r ∷ []) (c ∷ cs) (advance r p))
      | inl k ↦ elim (Option-cases (unquote_char (r ∷ (c ∷ cs)))) [
        | inl u ↦ rw (string_loop, e, k, u) tt
        | inr ((value, rest), u) ↦
            rw (string_loop, e, k, u)
              (string_loop-formed f start (b ++ value ∷ [])
                (drop (length (r ∷ (c ∷ cs)) - length rest) (r ∷ (c ∷ cs)))
                (advance_all (take (length (r ∷ (c ∷ cs)) - length rest) (r ∷ (c ∷ cs))) p))
      ]
    ]
  ]

  lex_comment-formed :
      (r : ℕ) (s : Text) (start p : Position)
      → (r == b';') ≡ true
      → LexesFormed (lex_comment unquote_char name start (take_line (r ∷ s) p))
  unfolding lex_comment token take_line
  lex_comment-formed r s start p h =
      let same : b';' ≡ r = ground arith in
      subst (λ c. LexesFormed (lex_comment unquote_char name start (take_line (c ∷ s) p))) same
        (is_comment-trim_blanks (take_line s (advance b';' p)).0
          (take_line-none_of s (advance b';' p)))

  lex_word-formed :
      (c : ℕ) (s : Text) (start p : Position)
      → is_delimiter c ≡ false
      → (c == b'"') ≡ false
      → LexesFormed (lex_word unquote_char name start (take_word (c ∷ s) p))
  unfolding lex_word token is_word take_word
  lex_word-formed c s start p d e =
      rw (take_word, d) (rw (none_of, e, d) (take_word-none_of s (advance c p)))

  -- Every token that is read is well formed.
  pub next_token-formed : (s : Text) (p : Position) → LexesFormed (next_token unquote_char name s p)
  unfolding next_token
  next_token-formed [] p = refl
  next_token-formed (r ∷ s) p = elim (Bool-cases (is_space r)) [
    | inl a ↦ rw (next_token, a) (next_token-formed s (advance r p))
    | inr a ↦ elim (Bool-cases (r == b';')) [
      | inl m ↦ rw (next_token, a, m) (lex_comment-formed r s p p m)
      | inr m ↦ elim (Bool-cases (r == b'(')) [
        | inl o ↦ rw (next_token, a, m, o) refl
        | inr o ↦ elim (Bool-cases (r == b')')) [
          | inl l ↦ rw (next_token, a, m, o, l) refl
          | inr l ↦ elim (Bool-cases (r == b'"')) [
            | inl q ↦
                rw (next_token, a, m, o, l, q)
                  (string_loop-formed (suc (length s)) p [] s (advance b'"' p))
            | inr q ↦
                let d = no_delimiter r a o l m in
                subst (λ t. LexesFormed t) (sym (next_token-plain unquote_char name r s p d q))
                  (lex_word-formed r s p p d q)
          ]
        ]
      ]
    ]
  ]
