-- ===== src/Sexp/Layout/ParserFormed.antt =====
-- The expressions and comments that the parser (internal/gesssexp/parser.go) returns, and their form.
use gess.Prelude.{
  true, Option, none, some, Option-cases, List, [], ℕ, zero, suc, ◌+◌, ◌*◌, length, ◌≡◌, refl, inl,
  inr, arith, Text,
}
use gess.Sexp.Syntax.{
  Span, Outcome, done, failed, out_of_fuel, ◌>>=◌, Expr, Exprs, nil, Token, TokenKind, eof_token,
  lparen_token, rparen_token, atom_token, string_token, comment_token,
}
use gess.Sexp.Lexer.{next_token}
use gess.Sexp.Parser.{
  Parser, with_leading, snoc, unread, next, lexed, expr, expr_from, list_loop, list_step, file_loop,
  file_step, comment_step, element_step, parse_all,
}
use gess.Sexp.Layout.Formed.{is_comment, all_comments}
use gess.Sexp.Layout.Lexed.{Ensures, token_formed, text_formed, next_token-formed}
use gess.Sexp.Layout.Parsed.{
  well_formed, all_well_formed, all_well_formed-snoc, well_formed-with_leading,
  attach_comment-formed,
}

Ensures-bind {ℓ κ} :
    {A B : Type 0} (P : A → Type ℓ) (Q : B → Type κ) (m : Outcome A) (f : A → Outcome B)
    → Ensures P m
    → ((a : A) → P a → Ensures Q (f a))
    → Ensures Q (m >>= f)
Ensures-bind P Q (done a) f h k = k a h
Ensures-bind P Q (failed e) f h k = tt
Ensures-bind P Q out_of_fuel f h k = tt

abbrev PeekFormed : Option Token → Type 0
PeekFormed none = Unit
PeekFormed (some tok) = token_formed tok ≡ true

abbrev TokenFormed : Token × Parser → Type 0
TokenFormed (tok, q) = (token_formed tok ≡ true) × PeekFormed q.peek

abbrev ExprFormed : Expr × Parser → Type 0
ExprFormed (e, q) = (well_formed e ≡ true) × PeekFormed q.peek

abbrev pub FileFormed : Exprs × List Text → Type 0
FileFormed (xs, tail) = (all_well_formed xs ≡ true) × (all_comments tail ≡ true)

-- A loop that goes on with what is well formed.
abbrev Continues {ℓ} :
    {A : Type 0} → (A → Type ℓ) → (Exprs → List Text → Parser → Outcome A) → Type ℓ
Continues P more =
    (xs : Exprs) (pending : List Text) (p : Parser)
    → all_well_formed xs ≡ true
    → all_comments pending ≡ true
    → PeekFormed p.peek
    → Ensures P (more xs pending p)

abbrev ReadsFormed : (Parser → Outcome (Expr × Parser)) → Type 0
ReadsFormed read = (p : Parser) → PeekFormed p.peek → Ensures ExprFormed (read p)

module _ {A : Type 0} (P : A → Type 0) (more : Exprs → List Text → Parser → Outcome A) where
  comment_step-formed :
      (xs : Exprs) (pending : List Text) (tok : Token) (q : Parser)
      → Continues P more
      → is_comment tok.text ≡ true
      → all_well_formed xs ≡ true
      → all_comments pending ≡ true
      → PeekFormed q.peek
      → Ensures P (comment_step more xs pending tok q)
  unfolding comment_step
  comment_step-formed xs pending tok q go c h k o =
      let (a, b) = attach_comment-formed tok xs pending c h k in go _ _ q a b o

  element_step-formed :
      (read : Parser → Outcome (Expr × Parser)) (xs : Exprs) (pending : List Text) (tok : Token)
      (q : Parser)
      → ReadsFormed read
      → Continues P more
      → token_formed tok ≡ true
      → all_well_formed xs ≡ true
      → all_comments pending ≡ true
      → Ensures P (element_step read more xs pending tok q)
  unfolding element_step unread all_comments
  element_step-formed read xs pending tok q reads go t h k =
      Ensures-bind ExprFormed P (read (unread tok q)) _ (reads (unread tok q) t) λ (e, r) (w, o).
        go (snoc xs (with_leading e pending)) [] r
          (all_well_formed-snoc xs (with_leading e pending) h
            (well_formed-with_leading e pending w k))
          refl o

expr_from-formed :
    (elements : Span → Parser → Outcome (Expr × Parser)) (kind : TokenKind) (tok : Token)
    (q : Parser)
    → ((start : Span) (r : Parser) → PeekFormed r.peek → Ensures ExprFormed (elements start r))
    → text_formed kind tok.text ≡ true
    → PeekFormed q.peek
    → Ensures ExprFormed (expr_from elements kind tok q)
unfolding expr_from well_formed
expr_from-formed elements atom_token tok q go t o = (ground arith, o)
expr_from-formed elements string_token tok q go t o = (refl, o)
expr_from-formed elements lparen_token tok q go t o = go tok.span q o
expr_from-formed elements rparen_token tok q go t o = tt
expr_from-formed elements eof_token tok q go t o = tt
expr_from-formed elements comment_token tok q go t o = tt

list_step-formed :
    (start : Span) (read : Parser → Outcome (Expr × Parser))
    (more : Exprs → List Text → Parser → Outcome (Expr × Parser)) (xs : Exprs) (pending : List Text)
    (kind : TokenKind) (tok : Token) (q : Parser)
    → ReadsFormed read
    → Continues ExprFormed more
    → text_formed kind tok.text ≡ true
    → token_formed tok ≡ true
    → all_well_formed xs ≡ true
    → all_comments pending ≡ true
    → PeekFormed q.peek
    → Ensures ExprFormed (list_step start read more xs pending kind tok q)
unfolding list_step well_formed
list_step-formed start read more xs pending eof_token tok q reads go t u h k o = tt
list_step-formed start read more xs pending comment_token tok q reads go t u h k o =
    comment_step-formed ExprFormed more xs pending tok q go t h k o
list_step-formed start read more xs pending rparen_token tok q reads go t u h k o =
    (ground arith, o)
list_step-formed start read more xs pending _ tok q reads go t u h k o =
    element_step-formed ExprFormed more read xs pending tok q reads go u h k

file_step-formed :
    (read : Parser → Outcome (Expr × Parser))
    (more : Exprs → List Text → Parser → Outcome (Exprs × List Text)) (xs : Exprs)
    (pending : List Text) (kind : TokenKind) (tok : Token) (q : Parser)
    → ReadsFormed read
    → Continues FileFormed more
    → text_formed kind tok.text ≡ true
    → token_formed tok ≡ true
    → all_well_formed xs ≡ true
    → all_comments pending ≡ true
    → PeekFormed q.peek
    → Ensures FileFormed (file_step read more xs pending kind tok q)
unfolding file_step
file_step-formed read more xs pending eof_token tok q reads go t u h k o = (h, k)
file_step-formed read more xs pending comment_token tok q reads go t u h k o =
    comment_step-formed FileFormed more xs pending tok q go t h k o
file_step-formed read more xs pending _ tok q reads go t u h k o =
    element_step-formed FileFormed more read xs pending tok q reads go u h k

module _ (unquote_char : Text → Option (ℕ × Text)) (name : Text) where
  next-formed : (p : Parser) → PeekFormed p.peek → Ensures TokenFormed (next unquote_char name p)
  unfolding next lexed
  next-formed p h = elim (Option-cases p.peek) [
    | inl e ↦
        rw (next, e)
          (Ensures-bind (λ (tok, s, at). token_formed tok ≡ true) TokenFormed
            (next_token unquote_char name p.input p.at) _
            (next_token-formed unquote_char name p.input p.at) λ (tok, s, at) t. (t, tt))
    | inr (tok, e) ↦ rw (next, e) (rw e at h, tt)
  ]

  mutual
    unfolding expr all_comments well_formed

    expr-formed : (f : ℕ) → ReadsFormed (expr unquote_char name f)
    expr-formed zero p h = tt
    expr-formed (suc f) p h =
        Ensures-bind TokenFormed ExprFormed (next unquote_char name p) _ (next-formed p h)
          λ (tok, q) (t, o).
            expr_from-formed _ tok.kind tok q
              (λ start r u. list_loop-formed f start nil [] r refl refl u) t o

    list_loop-formed :
        (f : ℕ) (start : Span) → Continues ExprFormed (list_loop unquote_char name f start)
    list_loop-formed zero start xs pending p h k o = tt
    list_loop-formed (suc f) start xs pending p h k o =
        Ensures-bind TokenFormed ExprFormed (next unquote_char name p) _ (next-formed p o)
          λ (tok, q) (t, u).
            list_step-formed start _ _ xs pending tok.kind tok q (expr-formed f)
              (list_loop-formed f start) t t h k u

  file_loop-formed : (f : ℕ) → Continues FileFormed (file_loop unquote_char name f)
  unfolding file_loop
  file_loop-formed zero xs pending p h k o = tt
  file_loop-formed (suc f) xs pending p h k o =
      Ensures-bind TokenFormed FileFormed (next unquote_char name p) _ (next-formed p o)
        λ (tok, q) (t, u).
          file_step-formed _ _ xs pending tok.kind tok q (expr-formed f) (file_loop-formed f) t t h
            k u

  -- Of every file that parses, the bare atoms are words (no space, parenthesis or semicolon, and no
  -- quote in front), and all comments, those at the end included, start with a semicolon, hold no end
  -- of line, and have no blank at the end.
  pub parse_all-formed : (source : Text) → Ensures FileFormed (parse_all unquote_char name source)
  unfolding parse_all all_comments well_formed
  parse_all-formed source =
      file_loop-formed (2 * length source + 3) nil []
        (record { peek = none; input = source; at = record { line = 1; col = 1 } }) refl refl tt
