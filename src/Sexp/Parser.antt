-- ===== src/Sexp/Parser.antt =====
-- The parser of internal/gesssexp/parser.go. Its two loops attach comments alike, so the step that
-- does it is one definition.
use gess.Prelude.{
  if◌then◌else◌, Bool, true, false, ◌&&◌, Option, none, some, List, [], ◌∷◌, ◌++◌, ℕ, zero, suc,
  ◌+◌, ◌*◌, ◌==◌, nat_eq, Text, length,
}
use gess.Sexp.Syntax.{
  Span, Outcome, done, failed, out_of_fuel, ◌>>=◌, Trivia, Expr, Exprs, atom, list, nil, cons,
  trivia, with_trivia, append, last_expr, set_last, Token, TokenKind, eof_token, lparen_token,
  rparen_token, atom_token, string_token, comment_token, Position, advance, span_with_end,
  unterminated_list, unexpected_close, unexpected_end, invalid_token,
}
use gess.Sexp.Lexer.{next_token}

-- The token that was put back, if there is one, and the lexer.
pub record Parser : Type 0 where
  pub peek : Option Token
  pub input : Text
  pub at : Position

abbrev pub is_empty : {A : Type 0} → List A → Bool
is_empty [] = true
is_empty (x ∷ xs) = false

abbrev pub bare_trivia : Span → Trivia
bare_trivia span = record { span = span; leading = []; trailing = []; dangling = [] }

unfoldable pub with_leading : Expr → List Text → Expr
unfolding with_trivia trivia
with_leading e comments = with_trivia e (record (trivia e) { leading = comments })

unfoldable pub with_trailing : Expr → Text → Expr
unfolding with_trivia trivia
with_trailing e comment = with_trivia e (record (trivia e) { trailing = comment })

-- A comment on the line where the last expression ends is its trailing comment, if it has none and
-- no comment waits; any other comment waits for the next expression.
unfoldable pub takes_trailing : Token → Expr → Bool
unfolding trivia
takes_trailing tok e =
    is_empty (trivia e).trailing && tok.span.start_line == (trivia e).span.end_line

unfoldable pub attach_comment : Token → Exprs → List Text → Exprs × List Text
unfolding last_expr set_last with_trailing takes_trailing
attach_comment tok xs pending = elim (last_expr xs) [
  | none ↦ (xs, pending ++ tok.text ∷ [])
  | some e ↦
      if is_empty pending && takes_trailing tok e
      then (set_last xs (with_trailing e tok.text), pending)
      else (xs, pending ++ tok.text ∷ [])
]

unfoldable pub snoc : Exprs → Expr → Exprs
unfolding append
snoc xs x = append xs (cons x nil)

unfoldable pub unread : Token → Parser → Parser
unread tok p = record p { peek = some tok }

-- The switch of `parser.expr`; `elements` reads the elements of a list.
unfoldable pub expr_from :
    (Span → Parser → Outcome (Expr × Parser)) → TokenKind → Token → Parser → Outcome (Expr × Parser)
expr_from elements atom_token tok q = done (atom tok.text false (bare_trivia tok.span), q)
expr_from elements string_token tok q = done (atom tok.text true (bare_trivia tok.span), q)
expr_from elements lparen_token tok q = elements tok.span q
expr_from elements rparen_token tok q =
    failed (record { span = tok.span; reason = unexpected_close })
expr_from elements eof_token tok q = failed (record { span = tok.span; reason = unexpected_end })
expr_from elements comment_token tok q = failed (record { span = tok.span; reason = invalid_token })

-- The default case of both loops: the token is put back, and an expression is read.
unfoldable pub element_step :
    {A : Type 0}
    → (Parser → Outcome (Expr × Parser))
    → (Exprs → List Text → Parser → Outcome A)
    → Exprs
    → List Text
    → Token
    → Parser
    → Outcome A
unfolding snoc unread with_leading
element_step expr more xs pending tok q =
    expr (unread tok q) >>= λ (child, r). more (snoc xs (with_leading child pending)) [] r

-- The case of a comment.
unfoldable pub comment_step :
    {A : Type 0}
    → (Exprs → List Text → Parser → Outcome A)
    → Exprs
    → List Text
    → Token
    → Parser
    → Outcome A
unfolding attach_comment
comment_step more xs pending tok q =
    let (ys, waiting) = attach_comment tok xs pending in more ys waiting q

-- The switch of the loop over the elements of a list.
unfoldable pub list_step :
    Span
    → (Parser → Outcome (Expr × Parser))
    → (Exprs → List Text → Parser → Outcome (Expr × Parser))
    → Exprs
    → List Text
    → TokenKind
    → Token
    → Parser
    → Outcome (Expr × Parser)
unfolding comment_step element_step span_with_end
list_step start expr more xs pending eof_token tok q =
    failed (record { span = start; reason = unterminated_list })
list_step start expr more xs pending comment_token tok q = comment_step more xs pending tok q
list_step start expr more xs pending rparen_token tok q =
    done (list xs (record (bare_trivia (span_with_end start tok.span)) { dangling = pending }), q)
list_step start expr more xs pending other tok q = element_step expr more xs pending tok q

-- The switch of the loop of `parseAll`.
unfoldable pub file_step :
    (Parser → Outcome (Expr × Parser))
    → (Exprs → List Text → Parser → Outcome (Exprs × List Text))
    → Exprs
    → List Text
    → TokenKind
    → Token
    → Parser
    → Outcome (Exprs × List Text)
unfolding comment_step element_step
file_step expr more out pending eof_token tok q = done (out, pending)
file_step expr more out pending comment_token tok q = comment_step more out pending tok q
file_step expr more out pending other tok q = element_step expr more out pending tok q

module _ (unquote_char : Text → Option (ℕ × Text)) (name : Text) where
  unfoldable pub lexed : Outcome (Token × Text × Position) → Outcome (Token × Parser)
  lexed r = r >>= λ (tok, s, at). done (tok, record { peek = none; input = s; at = at })

  -- `parser.next`
  unfoldable pub next : Parser → Outcome (Token × Parser)
  unfolding next_token lexed
  next p = elim p.peek [
    | some tok ↦ done (tok, record p { peek = none })
    | none ↦ lexed (next_token unquote_char name p.input p.at)
  ]

  -- `parser.expr` and its loop; each call and each round takes a unit of fuel.
  unfoldable mutual
    unfolding next expr_from list_step

    pub expr : ℕ → Parser → Outcome (Expr × Parser)
    expr zero p = out_of_fuel
    expr (suc f) p =
        next p >>= λ (tok, q). expr_from (λ start r. list_loop f start nil [] r) tok.kind tok q

    pub list_loop : ℕ → Span → Exprs → List Text → Parser → Outcome (Expr × Parser)
    list_loop zero start xs pending p = out_of_fuel
    list_loop (suc f) start xs pending p = next p >>= λ (tok, q).
        list_step start (λ r. expr f r) (λ ys waiting r. list_loop f start ys waiting r) xs pending
          tok.kind tok q

  -- The loop of `parseAll`.
  unfoldable pub file_loop : ℕ → Exprs → List Text → Parser → Outcome (Exprs × List Text)
  unfolding next expr file_step
  file_loop zero out pending p = out_of_fuel
  file_loop (suc f) out pending p = next p >>= λ (tok, q).
      file_step (λ r. expr f r) (λ ys waiting r. file_loop f ys waiting r) out pending tok.kind tok
        q

  unfoldable pub parse_all : Text → Outcome (Exprs × List Text)
  unfolding file_loop advance
  parse_all source =
      file_loop (2 * length source + 3) nil []
        (record { peek = none; input = source; at = record { line = 1; col = 1 } })

  -- `Parse`
  unfoldable pub parse : Text → Outcome Exprs
  unfolding parse_all
  parse source = parse_all source >>= λ (out, tail). done out
