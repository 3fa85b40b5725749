-- ===== src/Sexp/Termination/Parsing.antt =====
-- The fuel of the parser (internal/gesssexp/parser.go): a call or a round of a loop for each token.
use gess.Prelude.{
  Option, none, some, Option-cases, List, [], ℕ, zero, suc, ◌+◌, ◌*◌, ◌<◌, ◌≤◌, ◌≡◌, refl, ap, ◌⊎◌,
  inl, inr, arith, Text, length,
}
use gess.Sexp.Syntax.{
  Span, FileError, Outcome, done, failed, out_of_fuel, Expr, Exprs, nil, Token, TokenKind,
  eof_token, lparen_token, rparen_token, atom_token, string_token, comment_token,
}
use gess.Sexp.Lexer.{next_token}
use gess.Sexp.Parser.{
  Parser, with_leading, snoc, unread, next, lexed, expr, expr_from, list_loop, list_step, file_loop,
  file_step, comment_step, element_step, parse_all,
}
use gess.Sexp.Termination.Lexing.{Total, Total-bind, cost, Shortens, next_token-total}

abbrev weight : Option Token → ℕ
weight none = 0
weight (some tok) = cost tok.kind

-- The characters that are left, the token that was put back included.
abbrev size : Parser → ℕ
size p = length p.input + weight p.peek

abbrev Below : ℕ → Expr × Parser → Type 0
Below n (e, r) = size r < n

abbrev Whatever : {A : Type 0} → A → Type 0
Whatever a = Unit

abbrev EndsBelow :
    {A : Type 0} → (A → Type 0) → ℕ → (Exprs → List Text → Parser → Outcome A) → Type 0
EndsBelow P n more =
    (xs : Exprs) (pending : List Text) (r : Parser) → size r < n → Total P (more xs pending r)

abbrev ReadsBelow : ℕ → (Parser → Outcome (Expr × Parser)) → Type 0
ReadsBelow n read = (r : Parser) → size r ≤ n → Total (Below (size r)) (read r)

module _ {A : Type 0} (P : A → Type 0) (n : ℕ) (more : Exprs → List Text → Parser → Outcome A) where
  element_step-Total :
      (read : Parser → Outcome (Expr × Parser)) (xs : Exprs) (pending : List Text) (tok : Token)
      (q : Parser)
      → ReadsBelow n read
      → EndsBelow P n more
      → length q.input + cost tok.kind ≤ n
      → Total P (element_step read more xs pending tok q)
  unfolding element_step unread
  element_step-Total read xs pending tok q reads go h =
      Total-bind (Below (length q.input + cost tok.kind)) P (read (unread tok q)) _
        (reads (unread tok q) h)
        λ (e, r) b. go (snoc xs (with_leading e pending)) [] r (omega arith)

  comment_step-Total :
      (xs : Exprs) (pending : List Text) (tok : Token) (q : Parser)
      → EndsBelow P n more
      → size q < n
      → Total P (comment_step more xs pending tok q)
  unfolding comment_step
  comment_step-Total xs pending tok q go h = go _ _ q h

expr_from-Total :
    (n : ℕ) (elements : Span → Parser → Outcome (Expr × Parser)) (kind : TokenKind) (tok : Token)
    (q : Parser)
    → ((start : Span) (r : Parser) → size r < n → Total (Below n) (elements start r))
    → size q + cost kind ≤ n
    → Total (Below n) (expr_from elements kind tok q)
unfolding expr_from
expr_from-Total n elements atom_token tok q go h = omega arith
expr_from-Total n elements string_token tok q go h = omega arith
expr_from-Total n elements lparen_token tok q go h = go tok.span q (omega arith)
expr_from-Total n elements rparen_token tok q go h = tt
expr_from-Total n elements eof_token tok q go h = tt
expr_from-Total n elements comment_token tok q go h = tt

list_step-Total :
    (n m : ℕ) (start : Span) (read : Parser → Outcome (Expr × Parser))
    (more : Exprs → List Text → Parser → Outcome (Expr × Parser)) (xs : Exprs) (pending : List Text)
    (kind : TokenKind) (tok : Token) (q : Parser)
    → m ≤ n
    → ReadsBelow m read
    → EndsBelow (Below n) m more
    → size q + cost kind ≤ m
    → length q.input + cost tok.kind ≤ m
    → Total (Below n) (list_step start read more xs pending kind tok q)
unfolding list_step
list_step-Total n m start read more xs pending eof_token tok q le reads go h u = tt
list_step-Total n m start read more xs pending comment_token tok q le reads go h u =
    comment_step-Total (Below n) m more xs pending tok q go (omega arith)
list_step-Total n m start read more xs pending rparen_token tok q le reads go h u = omega arith
list_step-Total n m start read more xs pending _ tok q le reads go h u =
    element_step-Total (Below n) m more read xs pending tok q reads go u

file_step-Total :
    (n : ℕ) (read : Parser → Outcome (Expr × Parser))
    (more : Exprs → List Text → Parser → Outcome (Exprs × List Text)) (xs : Exprs)
    (pending : List Text) (kind : TokenKind) (tok : Token) (q : Parser)
    → ReadsBelow n read
    → EndsBelow Whatever n more
    → size q + cost kind ≤ n
    → length q.input + cost tok.kind ≤ n
    → Total Whatever (file_step read more xs pending kind tok q)
unfolding file_step
file_step-Total n read more xs pending eof_token tok q reads go h u = tt
file_step-Total n read more xs pending comment_token tok q reads go h u =
    comment_step-Total Whatever n more xs pending tok q go (omega arith)
file_step-Total n read more xs pending _ tok q reads go h u =
    element_step-Total Whatever n more read xs pending tok q reads go u

Total-cases :
    {A : Type 0} (r : Outcome A)
    → Total Whatever r
    → ((a : A) × (r ≡ done a)) ⊎ ((e : FileError) × (r ≡ failed e))
Total-cases (done a) h = inl (a, refl)
Total-cases (failed e) h = inr (e, refl)
Total-cases out_of_fuel h = absurd h

module _ (unquote_char : Text → Option (ℕ × Text)) (shortens : Shortens unquote_char)
    (name : Text) where
  abbrev NextTakes : ℕ → Token × Parser → Type 0
  NextTakes n (tok, q) = (size q + cost tok.kind ≤ n) × (q.peek ≡ none)

  next-Total : (p : Parser) (n : ℕ) → size p ≤ n → Total (NextTakes n) (next unquote_char name p)
  unfolding next lexed
  next-Total p n h = elim (Option-cases p.peek) [
    | inl e ↦
        rw (next, e)
          (Total-bind (λ (tok, rest, at). length rest + cost tok.kind ≤ length p.input)
            (NextTakes n) (next_token unquote_char name p.input p.at) _
            (next_token-total unquote_char shortens name p.input p.at)
            λ (tok, s, at) u. (omega arith, refl))
    | inr (tok, e) ↦ rw (next, e) (omega (arith, ap weight e), refl)
  ]

  mutual
    unfolding expr

    expr-Total :
        (f : ℕ) (p : Parser) (n : ℕ)
        → size p ≤ n
        → 2 * n < f
        → Total (Below n) (expr unquote_char name f p)
    expr-Total zero p n le h = absurd (omega arith)
    expr-Total (suc f) p n le h =
        Total-bind (NextTakes n) (Below n) (next unquote_char name p) _ (next-Total p n le)
          λ (tok, q) (t, o).
            expr_from-Total n _ tok.kind tok q
              (λ start r u.
                list_loop-Total f start nil [] r (size r) n (omega arith) (omega arith)
                  (omega arith))
              t

    list_loop-Total :
        (f : ℕ) (start : Span) (xs : Exprs) (pending : List Text) (p : Parser) (m n : ℕ)
        → size p ≤ m
        → m ≤ n
        → 2 * m + 1 < f
        → Total (Below n) (list_loop unquote_char name f start xs pending p)
    list_loop-Total zero start xs pending p m n le up h = absurd (omega arith)
    list_loop-Total (suc f) start xs pending p m n le up h =
        Total-bind (NextTakes m) (Below n) (next unquote_char name p) _ (next-Total p m le)
          λ (tok, q) (t, o).
            list_step-Total n m start _ _ xs pending tok.kind tok q up
              (λ r u. expr-Total f r (size r) (omega arith) (omega arith))
              (λ ys waiting r u.
                list_loop-Total f start ys waiting r (size r) n (omega arith) (omega arith)
                  (omega arith))
              t (omega arith)

  file_loop-Total :
      (f : ℕ) (xs : Exprs) (pending : List Text) (p : Parser) (n : ℕ)
      → size p ≤ n
      → 2 * n + 1 < f
      → Total Whatever (file_loop unquote_char name f xs pending p)
  unfolding file_loop
  file_loop-Total zero xs pending p n le h = absurd (omega arith)
  file_loop-Total (suc f) xs pending p n le h =
      Total-bind (NextTakes n) Whatever (next unquote_char name p) _ (next-Total p n le)
        λ (tok, q) (t, o).
          file_step-Total n _ _ xs pending tok.kind tok q
            (λ r u. expr-Total f r (size r) (omega arith) (omega arith))
            (λ ys waiting r u. file_loop-Total f ys waiting r (size r) (omega arith) (omega arith))
            t (omega arith)

  -- If `strconv.UnquoteChar` leaves less than it was given, the parser ends on every source with the
  -- expressions of the file or with an error.
  pub parse_all-total :
      (source : Text)
      → ((r : Exprs × List Text) × (parse_all unquote_char name source ≡ done r))
        ⊎ ((e : FileError) × (parse_all unquote_char name source ≡ failed e))
  unfolding parse_all
  parse_all-total source = Total-cases _ (
      file_loop-Total (2 * length source + 3) nil []
        (record { peek = none; input = source; at = record { line = 1; col = 1 } }) (length source)
        (omega arith) (omega arith))
