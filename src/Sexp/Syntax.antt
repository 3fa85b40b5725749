-- ===== src/Sexp/Syntax.antt =====
-- Tokens, expressions and errors of internal/gesssexp/parser.go, and `SourceSpan` of rules. An
-- expression whose `List` is nil is an `atom`; no code builds a list that has an atom's text too.
use gess.Prelude.{
  if◌then◌else◌, Bool, true, false, Option, none, some, List, [], ◌∷◌, ℕ, suc, ◌+◌, ◌==◌, ◌||◌,
  nat_eq, Text, is_space,
}

pub record Span : Type 0 where
  pub name : Text
  pub start_line : ℕ
  pub start_column : ℕ
  pub end_line : ℕ
  pub end_column : ℕ

pub data Reason : Type 0 where
  unterminated_list unterminated_string invalid_escape unexpected_close unexpected_end : Reason
  invalid_token expected_scalar : Reason

pub record FileError : Type 0 where
  pub span : Span
  pub reason : Reason

-- What a run of the reader comes to; the model's loops may be given too little fuel.
pub data Outcome {ℓ} (A : Type ℓ) : Type ℓ where
  done : A → Outcome A
  failed : FileError → Outcome A
  out_of_fuel : Outcome A

infixl 5 ◌>>=◌
abbrev pub ◌>>=◌ {ℓ κ} : {A : Type ℓ} {B : Type κ} → Outcome A → (A → Outcome B) → Outcome B
done a >>= f = f a
failed e >>= f = failed e
out_of_fuel >>= f = out_of_fuel

-- What an expression carries beside its text or its children.
pub record Trivia : Type 0 where
  pub span : Span
  pub leading : List Text
  pub trailing : Text
  pub dangling : List Text

mutual
  pub data Expr : Type 0 where
    atom : Text → Bool → Trivia → Expr
    list : Exprs → Trivia → Expr

  pub data Exprs : Type 0 where
    nil : Exprs
    cons : Expr → Exprs → Exprs

unfoldable pub is_atom : Expr → Bool
is_atom (atom text string t) = true
is_atom (list xs t) = false

unfoldable pub trivia : Expr → Trivia
trivia (atom text string t) = t
trivia (list xs t) = t

unfoldable pub with_trivia : Expr → Trivia → Expr
with_trivia (atom text string t) u = atom text string u
with_trivia (list xs t) u = list xs u

-- `Expr.Text`; the text of a list is empty.
unfoldable pub text_of : Expr → Text
text_of (atom text string t) = text
text_of (list xs t) = []

unfoldable pub head_text : Exprs → Text
head_text nil = []
head_text (cons (atom text string t) xs) = text
head_text (cons (list ys t) xs) = []

-- `Expr.Head`
unfoldable pub head : Expr → Text
unfolding head_text
head (atom text string t) = []
head (list xs t) = head_text xs

unfoldable pub append : Exprs → Exprs → Exprs
append nil ys = ys
append (cons x xs) ys = cons x (append xs ys)

unfoldable pub count : Exprs → ℕ
count nil = 0
count (cons x xs) = suc (count xs)

unfoldable pub last_expr : Exprs → Option Expr
last_expr nil = none
last_expr (cons x nil) = some x
last_expr (cons x (cons y ys)) = last_expr (cons y ys)

unfoldable pub set_last : Exprs → Expr → Exprs
set_last nil e = nil
set_last (cons x nil) e = cons e nil
set_last (cons x (cons y ys)) e = cons x (set_last (cons y ys) e)

pub data TokenKind : Type 0 where
  eof_token lparen_token rparen_token atom_token string_token comment_token : TokenKind

pub record Token : Type 0 where
  pub kind : TokenKind
  pub text : Text
  pub span : Span

-- `lexer.line` and `lexer.col`; the rest of the input stands for `lexer.input[lexer.offset:]`.
pub record Position : Type 0 where
  pub line : ℕ
  pub col : ℕ

abbrev pub newline : ℕ
newline = 0x0a

-- `lexer.advance`, but for the offset.
unfoldable pub advance : ℕ → Position → Position
advance r p =
    if r == newline then record { line = p.line + 1; col = 1 } else record p { col = p.col + 1 }

unfoldable pub advance_all : Text → Position → Position
advance_all [] p = p
advance_all (r ∷ s) p = advance_all s (advance r p)

unfoldable pub span_at : Text → Position → Span
span_at name p = record {
  name = name;
  start_line = p.line;
  start_column = p.col;
  end_line = p.line;
  end_column = p.col;
}

unfoldable pub span_with_end : Span → Span → Span
span_with_end start end = record start { end_line = end.start_line; end_column = end.start_column }

-- What ends a bare atom.
unfoldable pub is_delimiter : ℕ → Bool
is_delimiter r = is_space r || r == b'(' || r == b')' || r == b';'
