-- ===== src/Sexp/Layout.antt =====
-- What a text of a file stands for, without regard to how it is laid out: `Reads w x` says that `w`
-- is the bare expression `x`, and `Layout` that a text is a series of expressions with white
-- space and whole comment lines between them (the grammar that internal/gesssexp/parser.go reads). Both
-- carry the comments of the text as their last index.
pub mod Words
pub mod Tokens
pub mod Bare
pub mod Comments
pub mod Loops
pub mod Rounds
pub mod Reader
pub mod Formed
pub mod Pieces
pub mod Free
pub mod Lines
pub mod Writer
pub mod File
pub mod Lexed
pub mod Parsed
pub mod ParserFormed
pub mod RoundTrip
pub mod Length
pub mod Quoting
use gess.Prelude.{
  Bool, true, false, not, ◌&&◌, List, [], ◌∷◌, ◌++◌, ℕ, ◌==◌, nat_eq, ◌≡◌, refl, Text, is_space,
}
use gess.Sexp.Lexer.{trim_blanks}
use gess.Sexp.Syntax.{
  trivia, Span, Trivia, Expr, Exprs, atom, list, nil, cons, newline, is_delimiter,
}

abbrev pub blank_span : Span
blank_span = record { name = []; start_line = 0; start_column = 0; end_line = 0; end_column = 0 }

abbrev pub blank : Trivia
blank = record { span = blank_span; leading = []; trailing = []; dangling = [] }

-- An expression without its comments and positions.
unfoldable mutual
  pub bare : Expr → Expr
  bare (atom text string t) = atom text string blank
  bare (list xs t) = list (bare_all xs) blank

  pub bare_all : Exprs → Exprs
  bare_all nil = nil
  bare_all (cons x xs) = cons (bare x) (bare_all xs)

-- No character of a text is one that `stops` names.
unfoldable pub none_of : (ℕ → Bool) → Text → Bool
none_of stops [] = true
none_of stops (c ∷ s) = not (stops c) && none_of stops s

-- A text of a bare atom.
unfoldable pub is_word : Text → Bool
unfolding none_of is_delimiter
is_word [] = false
is_word (c ∷ s) = not (c == b'"') && none_of is_delimiter (c ∷ s)

-- A text that does not continue the atom before it.
unfoldable pub apart : Text → Bool
unfolding is_delimiter
apart [] = true
apart (c ∷ s) = is_delimiter c

abbrev pub is_newline : ℕ → Bool
is_newline c = c == newline

-- A text that begins a new line, behind a comment.
unfoldable pub breaks : Text → Bool
breaks [] = false
breaks (c ∷ s) = is_newline c

-- What closes a series of expressions.
pub data Ending : Type 0 where
  in_list in_file : Ending

-- The comment at the end of an expression's line, if there is one.
unfoldable pub trailing_comments : Text → List Text
trailing_comments [] = []
trailing_comments (c ∷ s) = (c ∷ s) ∷ []

-- The comments inside an expression, and those of a series of expressions, as they stand in the file.
unfoldable mutual
  unfolding trailing_comments trivia

  pub inner_comments : Expr → List Text
  inner_comments (atom text string t) = []
  inner_comments (list xs t) = comments xs ++ t.dangling

  pub comments : Exprs → List Text
  comments nil = []
  comments (cons x xs) =
      (trivia x).leading
      ++ (inner_comments x ++ (trailing_comments (trivia x).trailing ++ comments xs))

-- The last index holds the comments, in their order and without the blanks at their ends.
mutual
  pub data Reads (quote : Text → Text) : Text → Expr → List Text → Type 0 where
    word : (t : Text) → is_word t ≡ true → Reads quote t (atom t false blank) []
    quoted : (t : Text) → Reads quote (quote t) (atom t true blank) []
    parens :
        {xs : Exprs} {cs : List Text} (s : Text)
        → Layout quote in_list s xs cs
        → Reads quote (b'(' ∷ s) (list xs blank) cs

  pub data Layout (quote : Text → Text) : Ending → Text → Exprs → List Text → Type 0 where
    close : Layout quote in_list (b')' ∷ []) nil []
    eof : Layout quote in_file [] nil []
    spaced :
        {ending : Ending} {xs : Exprs} {cs : List Text} (c : ℕ) (s : Text)
        → is_space c ≡ true
        → Layout quote ending s xs cs
        → Layout quote ending (c ∷ s) xs cs
    commented :
        {ending : Ending} {xs : Exprs} {cs : List Text} (c s : Text)
        → none_of is_newline c ≡ true
        → breaks s ≡ true
        → Layout quote ending s xs cs
        → Layout quote ending (b';' ∷ (c ++ s)) xs (trim_blanks (b';' ∷ c) ∷ cs)
    child :
        {ending : Ending} {x : Expr} {xs : Exprs} {cs ds : List Text} (w s : Text)
        → Reads quote w x cs
        → apart s ≡ true
        → Layout quote ending s xs ds
        → Layout quote ending (w ++ s) (cons x xs) (cs ++ ds)
