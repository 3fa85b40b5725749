-- ===== src/Sexp/Layout/Formed.antt =====
-- Well-formed comments and expressions: those that the formatter of internal/gesssexp/format.go writes
-- so that the parser reads them back.
use gess.Prelude.{
  list_beq_iff, ℕ, refl, list_eq, Bool, true, false, not, ◌&&◌, ◌||◌, List, [], ◌∷◌, ◌==◌, nat_eq,
  list_eq, ◌≡◌, arith, Text, codes,
}
use gess.Sexp.Syntax.{Trivia, Expr, Exprs, atom, list, nil, cons, trivia}
use gess.Sexp.Lexer.{trim_blanks}
use gess.Sexp.Parser.{is_empty}
use gess.Sexp.Layout.{none_of, is_newline, is_word}

-- A comment as the lexer reads it: a semicolon, no end of line, and no blank at the end.
unfoldable pub is_comment : Text → Bool
unfolding none_of
is_comment [] = false
is_comment (c ∷ s) = c == b';' && none_of is_newline s && trim_blanks (c ∷ s) == (c ∷ s)

pub is_comment_of :
    (s : Text)
    → none_of is_newline s ≡ true
    → trim_blanks (b';' ∷ s) ≡ b';' ∷ s
    → is_comment (b';' ∷ s) ≡ true
unfolding is_comment
is_comment_of s h k =
    let same = (list_beq_iff (trim_blanks (b';' ∷ s)) (b';' ∷ s)).1 k in rw (h, same) refl

pub is_comment-parts :
    (c : ℕ) (s : Text)
    → is_comment (c ∷ s) ≡ true
    → (c ≡ b';') × (none_of is_newline s ≡ true) × (trim_blanks (c ∷ s) ≡ c ∷ s)
unfolding is_comment
is_comment-parts c s h =
    (ground arith, ground arith, (list_beq_iff (trim_blanks (c ∷ s)) (c ∷ s)).0 (ground arith))

unfoldable pub all_comments : List Text → Bool
unfolding is_comment
all_comments [] = true
all_comments (c ∷ cs) = is_comment c && all_comments cs

unfoldable pub trivia_formed : Trivia → Bool
unfolding all_comments
trivia_formed t =
    all_comments t.leading
    && (is_empty t.trailing || is_comment t.trailing)
    && all_comments t.dangling

-- What the formatter writes so that it reads back: atoms that the lexer reads, comments that are
-- comments, and no string "<-".
unfoldable mutual
  unfolding trivia_formed is_word

  pub formattable : Expr → Bool
  formattable (atom text false t) = is_word text && trivia_formed t
  formattable (atom text true t) = not (text == codes "<-") && trivia_formed t
  formattable (list xs t) = all_formattable xs && trivia_formed t

  pub all_formattable : Exprs → Bool
  all_formattable nil = true
  all_formattable (cons x xs) = formattable x && all_formattable xs

pub formattable-trivia : (e : Expr) → formattable e ≡ true → trivia_formed (trivia e) ≡ true
unfolding formattable trivia
formattable-trivia (atom text false t) h = ground arith
formattable-trivia (atom text true t) h = ground arith
formattable-trivia (list xs t) h = ground arith
