-- ===== src/Sexp/Layout/Loops.antt =====
-- The two loops of internal/gesssexp/parser.go take a comment and an element alike.
use gess.Prelude.{
  ◌++◌, Bool, true, false, Option, none, List, [], ◌∷◌, ℕ, zero, suc, ◌≡◌, refl, ◌∙◌, ap, sym, Text,
}
use gess.Sexp.Syntax.{
  trivia, Span, Outcome, done, ◌>>=◌, Expr, Exprs, list, nil, Token, TokenKind, eof_token,
  lparen_token, rparen_token, atom_token, string_token, comment_token, Position, advance,
}
use gess.Sexp.Lexer.{next_token}
use gess.Sexp.Parser.{
  Parser, next, expr, list_loop, list_step, file_loop, file_step, expr_from, comment_step,
  element_step, unread, lexed,
}
use gess.Sexp.Layout.{inner_comments, comments, bare, bare_all, blank}

-- The parser with nothing put back.
abbrev pub fresh : Text → Position → Parser
fresh s at = record { peek = none; input = s; at = at }

abbrev pub is_opening : TokenKind → Bool
is_opening atom_token = true
is_opening string_token = true
is_opening lparen_token = true
is_opening _ = false

list_step-opening :
    (k : TokenKind) (start : Span) (e : Parser → Outcome (Expr × Parser))
    (more : Exprs → List Text → Parser → Outcome (Expr × Parser)) (xs : Exprs) (pending : List Text)
    (tok : Token) (q : Parser)
    → is_opening k ≡ true
    → list_step start e more xs pending k tok q ≡ element_step e more xs pending tok q
unfolding list_step
list_step-opening atom_token start e more xs pending tok q h = refl
list_step-opening string_token start e more xs pending tok q h = refl
list_step-opening lparen_token start e more xs pending tok q h = refl
list_step-opening eof_token start e more xs pending tok q h = cc
list_step-opening rparen_token start e more xs pending tok q h = cc
list_step-opening comment_token start e more xs pending tok q h = cc

file_step-opening :
    (k : TokenKind) (e : Parser → Outcome (Expr × Parser))
    (more : Exprs → List Text → Parser → Outcome (Exprs × List Text)) (xs : Exprs)
    (pending : List Text) (tok : Token) (q : Parser)
    → is_opening k ≡ true
    → file_step e more xs pending k tok q ≡ element_step e more xs pending tok q
unfolding file_step
file_step-opening atom_token e more xs pending tok q h = refl
file_step-opening string_token e more xs pending tok q h = refl
file_step-opening lparen_token e more xs pending tok q h = refl
file_step-opening eof_token e more xs pending tok q h = cc
file_step-opening rparen_token e more xs pending tok q h = cc
file_step-opening comment_token e more xs pending tok q h = cc

module _ (unquote_char : Text → Option (ℕ × Text)) (name : Text) where
  pub next-fresh :
      (s : Text) (p : Position) {r : Outcome (Token × Text × Position)}
      → next_token unquote_char name s p ≡ r
      → next unquote_char name (fresh s p) ≡ lexed unquote_char name r
  unfolding next
  next-fresh s p h = ap (lexed unquote_char name) h

  pub next-skips :
      (s t : Text) (p q : Position)
      → next_token unquote_char name s p ≡ next_token unquote_char name t q
      → next unquote_char name (fresh s p) ≡ next unquote_char name (fresh t q)
  unfolding next
  next-skips s t p q h = ap (lexed unquote_char name) h

  -- `expr`, once the next token is known.
  pub expr-fresh :
      (f : ℕ) (s s' : Text) (p at : Position) (tok : Token)
      → next_token unquote_char name s p ≡ done (tok, s', at)
      → expr unquote_char name (suc f) (fresh s p)
        ≡ expr_from
            (λ start r. list_loop unquote_char name f start nil [] r)
            tok.kind
            tok
            (fresh s' at)
  unfolding expr next lexed
  expr-fresh f s s' p at tok h =
      ap
        (λ r. lexed unquote_char name r >>= λ (tok, q).
          expr_from (λ start r. list_loop unquote_char name f start nil [] r) tok.kind tok q)
        h

  -- An expression read again from a token that was put back.
  pub expr-unread :
      (f : ℕ) (p : Parser) (tok : Token) (s : Text) (at : Position)
      → next unquote_char name p ≡ done (tok, fresh s at)
      → expr unquote_char name f (unread tok (fresh s at)) ≡ expr unquote_char name f p
  unfolding expr unread
  expr-unread zero p tok s at h = refl
  expr-unread (suc f) p tok s at h =
      ap
        (λ r. r >>= λ (tok, q).
          expr_from (λ start r. list_loop unquote_char name f start nil [] r) tok.kind tok q)
        (sym h)

  -- What both loops do, once the next token is known.
  pub record IsLoop {A : Type 0} (loop : ℕ → Exprs → List Text → Parser → Outcome A) : Type 0 where
    pub takes_comment :
        (f : ℕ) (xs : Exprs) (pending : List Text) (p q : Parser) (tok : Token)
        → next unquote_char name p ≡ done (tok, q)
        → tok.kind ≡ comment_token
        → loop (suc f) xs pending p ≡ comment_step (loop f) xs pending tok q
    pub takes_element :
        (f : ℕ) (xs : Exprs) (pending : List Text) (p q : Parser) (tok : Token)
        → next unquote_char name p ≡ done (tok, q)
        → is_opening tok.kind ≡ true
        → loop (suc f) xs pending p
          ≡ element_step (expr unquote_char name f) (loop f) xs pending tok q
    pub skips :
        (f : ℕ) (xs : Exprs) (pending : List Text) (p q : Parser)
        → next unquote_char name p ≡ next unquote_char name q
        → loop f xs pending p ≡ loop f xs pending q

  -- One round of each loop, its next token read by `r`.
  list_round : ℕ → Span → Exprs → List Text → Outcome (Token × Parser) → Outcome (Expr × Parser)
  list_round f start xs pending r = r >>= λ (tok, q).
      list_step start (λ r. expr unquote_char name f r)
        (λ ys waiting r. list_loop unquote_char name f start ys waiting r) xs pending tok.kind tok q

  file_round : ℕ → Exprs → List Text → Outcome (Token × Parser) → Outcome (Exprs × List Text)
  file_round f xs pending r = r >>= λ (tok, q).
      file_step (λ r. expr unquote_char name f r)
        (λ ys waiting r. file_loop unquote_char name f ys waiting r) xs pending tok.kind tok q

  list_loop-skips :
      (start : Span) (f : ℕ) (xs : Exprs) (pending : List Text) (p q : Parser)
      → next unquote_char name p ≡ next unquote_char name q
      → list_loop unquote_char name f start xs pending p
        ≡ list_loop unquote_char name f start xs pending q
  unfolding list_loop list_round
  list_loop-skips start zero xs pending p q h = refl
  list_loop-skips start (suc f) xs pending p q h = ap (list_round f start xs pending) h

  file_loop-skips :
      (f : ℕ) (xs : Exprs) (pending : List Text) (p q : Parser)
      → next unquote_char name p ≡ next unquote_char name q
      → file_loop unquote_char name f xs pending p ≡ file_loop unquote_char name f xs pending q
  unfolding file_loop file_round
  file_loop-skips zero xs pending p q h = refl
  file_loop-skips (suc f) xs pending p q h = ap (file_round f xs pending) h

  pub list_loop-IsLoop :
      (start : Span) → IsLoop (λ f xs pending p. list_loop unquote_char name f start xs pending p)
  unfolding list_loop list_round list_step
  list_loop-IsLoop start = record {
    takes_comment = λ f xs pending p q tok h k. ap (list_round f start xs pending) h ∙ rw k;
    takes_element = λ f xs pending p q tok h k.
        ap (list_round f start xs pending) h
        ∙ list_step-opening tok.kind start (expr unquote_char name f)
            (list_loop unquote_char name f start) xs pending tok q k;
    skips = list_loop-skips start;
  }

  pub file_loop-IsLoop : IsLoop (λ f xs pending p. file_loop unquote_char name f xs pending p)
  unfolding file_loop file_round file_step
  file_loop-IsLoop = record {
    takes_comment = λ f xs pending p q tok h k. ap (file_round f xs pending) h ∙ rw k;
    takes_element = λ f xs pending p q tok h k.
        ap (file_round f xs pending) h
        ∙ file_step-opening tok.kind (expr unquote_char name f) (file_loop unquote_char name f) xs
            pending tok q k;
    skips = file_loop-skips;
  }

  -- Both loops end at their own token.
  pub list_loop-close :
      (f : ℕ) (start : Span) (xs : Exprs) (pending : List Text) (s : Text) (p : Position)
      → (e : Expr) × (at : Position) × (list_loop unquote_char name
            (suc f)
            start
            xs
            pending
            (fresh (b')' ∷ s) p)
          ≡ done (e, fresh s at))
        × (bare e ≡ list (bare_all xs) blank)
        × (inner_comments e ≡ comments xs ++ pending)
        × ((trivia e).trailing ≡ [])
  unfolding list_loop bare inner_comments
  list_loop-close f start xs pending s p = (list xs _, advance b')' p, refl, refl, refl, refl)

  pub file_loop-eof :
      (f : ℕ) (xs : Exprs) (pending : List Text) (p : Position)
      → file_loop unquote_char name (suc f) xs pending (fresh [] p) ≡ done (xs, pending)
  unfolding file_loop
  file_loop-eof f xs pending p = refl
