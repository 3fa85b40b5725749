-- ===== src/Sexp/Layout/Tokens.antt =====
-- What `lexer.next` (internal/gesssexp/parser.go) finds at the start of each piece of a layout.
use gess.Prelude.{
  true, false, Option, [], ◌∷◌, ◌++◌, ℕ, suc, ◌≡◌, refl, ◌∙◌, ap, append_assoc, arith, Text, length,
  is_space, ◌==◌, nat_eq,
}
use gess.Sexp.Syntax.{
  done, lparen_token, atom_token, string_token, comment_token, Position, advance, advance_all,
  is_delimiter,
}
use gess.Sexp.Lexer.{taking, take_word, token, next_token, lex_comment, lex_word, trim_blanks}
use gess.Sexp.Layout.{none_of, is_newline, is_word, apart, breaks}
use gess.Sexp.Layout.Words.{
  take_line-breaks, take_word-apart, Quotes, string_loop-flat, length-flat, flat,
}

not_delimiter :
    (c : ℕ)
    → is_delimiter c ≡ false
    → (is_space c ≡ false) × ((c == b'(') ≡ false) × ((c == b')') ≡ false) × ((c == b';') ≡ false)
unfolding is_delimiter
not_delimiter c h = (ground arith, ground arith, ground arith, ground arith)

pub no_delimiter :
    (c : ℕ)
    → is_space c ≡ false
    → (c == b'(') ≡ false
    → (c == b')') ≡ false
    → (c == b';') ≡ false
    → is_delimiter c ≡ false
unfolding is_delimiter
no_delimiter c a o l m = rw (is_delimiter, a, o, l, m)

module _ (unquote_char : Text → Option (ℕ × Text)) (name : Text) where
  pub next_token-space :
      (c : ℕ) (s : Text) (p : Position)
      → is_space c ≡ true
      → next_token unquote_char name (c ∷ s) p ≡ next_token unquote_char name s (advance c p)
  unfolding next_token
  next_token-space c s p h = rw (next_token, h)

  pub next_token-open :
      (s : Text) (p : Position)
      → (at : Position) × (next_token unquote_char name (b'(' ∷ s) p
          ≡ done (token unquote_char name lparen_token (b'(' ∷ []) p at, s, at))
  unfolding next_token
  next_token-open s p = (advance b'(' p, refl)

  pub next_token-comment :
      (c s : Text) (p : Position)
      → none_of is_newline c ≡ true
      → breaks s ≡ true
      → (at : Position) × (next_token unquote_char name (b';' ∷ (c ++ s)) p
          ≡ done (token unquote_char name comment_token (trim_blanks (b';' ∷ c)) p at, s, at))
  unfolding next_token
  next_token-comment c s p h b = (
    advance_all c (advance b';' p),
    ap (λ r. lex_comment unquote_char name p (taking b';' r))
        (take_line-breaks c s (advance b';' p) h b),
  )

  -- Any other character starts a bare atom.
  pub next_token-plain :
      (c : ℕ) (s : Text) (p : Position)
      → is_delimiter c ≡ false
      → (c == b'"') ≡ false
      → next_token unquote_char name (c ∷ s) p ≡ lex_word unquote_char name p (take_word (c ∷ s) p)
  unfolding next_token
  next_token-plain c s p d e =
      let (a, o, l, m) = not_delimiter c d in rw (next_token, a, m, o, l, e)

  pub next_token-word :
      (t s : Text) (p : Position)
      → is_word t ≡ true
      → apart s ≡ true
      → (at : Position) × (next_token unquote_char name (t ++ s) p
          ≡ done (token unquote_char name atom_token t p at, s, at))
  unfolding is_word none_of lex_word
  next_token-word [] s p h a = cc
  next_token-word (c ∷ t) s p h a = (
    advance_all (c ∷ t) p,
    next_token-plain c (t ++ s) p (ground arith) (ground arith)
        ∙ ap (lex_word unquote_char name p) (take_word-apart (c ∷ t) s p (ground arith) a),
  )

  pub next_token-quoted :
      {quote : Text → Text}
      → Quotes quote unquote_char
      → (t s : Text) (p : Position)
      → (at : Position) × (next_token unquote_char name (quote t ++ s) p
          ≡ done (token unquote_char name string_token t p at, s, at))
  next_token-quoted {quote} quotes t s p =
      let q = quotes.quoted_char in
      let (at, e) =
        string_loop-flat unquote_char name q quotes.each t (suc (length (flat q t ++ b'"' ∷ s))) p
          [] s (advance b'"' p) (omega (arith, length-flat q quotes.each t (b'"' ∷ s))) in
      (
        at,
        ap (λ w. next_token unquote_char name (w ++ s) p) (quotes.quote_lem t)
            ∙ ap (λ w. next_token unquote_char name (b'"' ∷ w) p)
                (append_assoc (flat q t) (b'"' ∷ []) s)
            ∙ (unfold next_token in e),
      )
