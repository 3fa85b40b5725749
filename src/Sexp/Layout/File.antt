-- ===== src/Sexp/Layout/File.antt =====
-- The layout of a whole file that `Format` (internal/gesssexp/format.go) writes.
use gess.Prelude.{true, false, List, [], ◌∷◌, ◌++◌, ◌≡◌, refl, ap, append-nil, arith, Text}
use gess.Sexp.Syntax.{Expr, Exprs, nil, cons, newline, trivia}
use gess.Sexp.Format.{format_expanded, comment_lines, write_trailing}
use gess.Sexp.Format.Write.{write_expr, file_exprs, after_exprs, format_exprs}
use gess.Sexp.Layout.{
  bare, bare_all, inner_comments, comments, trailing_comments, breaks, in_file, Layout, eof, spaced,
  child,
}
use gess.Sexp.Layout.Comments.{regroup_comments}
use gess.Sexp.Layout.Formed.{
  formattable, all_formattable, trivia_formed, all_comments, formattable-trivia,
}
use gess.Sexp.Layout.Pieces.{
  regroup, recount, regroup_four, comment_lines-Layout, write_trailing-Layout, write_trailing-apart,
  newline-is_space,
}
use gess.Sexp.Layout.Writer.{write_expr-Reads}

-- An expression of the file with its comments, and what follows it.
top_expr-Layout :
    {quote : Text → Text} {cs : List Text} (e : Expr) (s : Text) (xs : Exprs)
    → formattable e ≡ true
    → breaks s ≡ true
    → Layout quote in_file s xs cs
    → Layout quote in_file
        (comment_lines 0 (trivia e).leading
          ++ (write_expr quote e 0 format_expanded ++ (write_trailing (trivia e).trailing ++ s)))
        (cons (bare e) xs)
        ((trivia e).leading ++ (inner_comments e ++ (trailing_comments (trivia e).trailing ++ cs)))
unfolding trivia_formed
top_expr-Layout {quote} e s xs h b lay =
    let formed = formattable-trivia e h in
    comment_lines-Layout 0 (trivia e).leading (ground arith) (
      child (write_expr quote e 0 format_expanded) (write_trailing (trivia e).trailing ++ s)
        (write_expr-Reads quote e 0 format_expanded h)
        (write_trailing-apart (trivia e).trailing s b)
        (write_trailing-Layout (trivia e).trailing (ground arith) b lay))

module _ (quote : Text → Text) where
  later_exprs-breaks :
      (es : Exprs) (s : Text) → breaks s ≡ true → breaks (file_exprs quote false es ++ s) ≡ true
  unfolding file_exprs breaks
  later_exprs-breaks nil s b = b
  later_exprs-breaks (cons e es) s b = refl

  later_exprs-Layout :
      {cs : List Text} (es : Exprs) (s : Text)
      → all_formattable es ≡ true
      → breaks s ≡ true
      → Layout quote in_file s nil cs
      → Layout quote in_file (file_exprs quote false es ++ s) (bare_all es) (comments es ++ cs)
  unfolding file_exprs formattable bare comments
  later_exprs-Layout nil s h b lay = lay
  later_exprs-Layout {cs} (cons e es) s h b lay =
      regroup _ _
        (ap (λ t. newline ∷ (newline ∷ t))
          (regroup_four (comment_lines 0 (trivia e).leading) (write_expr quote e 0 format_expanded)
            (write_trailing (trivia e).trailing) (file_exprs quote false es) s))
        (spaced newline _ newline-is_space (
          spaced newline _ newline-is_space (
            recount _ _
              (regroup_comments (trivia e).leading (inner_comments e)
                (trailing_comments (trivia e).trailing) (comments es) cs)
              (top_expr-Layout e (file_exprs quote false es ++ s) (bare_all es) (ground arith)
                (later_exprs-breaks es s b) (later_exprs-Layout es s (ground arith) b lay)))))

  after_exprs-Layout :
      (e : Expr) (es : Exprs) (tail : List Text)
      → all_comments tail ≡ true
      → (breaks (after_exprs (cons e es) tail) ≡ true)
        × Layout quote in_file (after_exprs (cons e es) tail) nil tail
  unfolding after_exprs breaks
  after_exprs-Layout e es [] h = (refl, spaced newline [] newline-is_space eof)
  after_exprs-Layout e es (c ∷ cs) h = (
    refl,
    spaced newline _ newline-is_space (
        spaced newline _ newline-is_space (
          recount _ _ (append-nil (c ∷ cs))
            (regroup _ _ (append-nil _) (comment_lines-Layout 0 (c ∷ cs) h eof)))),
  )

  pub format_exprs-Layout :
      (exprs : Exprs) (tail : List Text)
      → all_formattable exprs ≡ true
      → all_comments tail ≡ true
      → Layout quote in_file
          (format_exprs quote exprs tail)
          (bare_all exprs)
          (comments exprs ++ tail)
  unfolding format_exprs file_exprs formattable bare comments
  format_exprs-Layout nil tail h c =
      recount _ _ (append-nil tail) (regroup _ _ (append-nil _) (comment_lines-Layout 0 tail c eof))
  format_exprs-Layout (cons e es) tail h c =
      let formed : formattable e ≡ true = ground arith in
      let later : all_formattable es ≡ true = ground arith in
      let (b, end) = after_exprs-Layout e es tail c in
      let s = after_exprs (cons e es) tail in
      regroup _ _
        (regroup_four (comment_lines 0 (trivia e).leading) (write_expr quote e 0 format_expanded)
          (write_trailing (trivia e).trailing) (file_exprs quote false es) s)
        (recount _ _
          (regroup_comments (trivia e).leading (inner_comments e)
            (trailing_comments (trivia e).trailing) (comments es) tail)
          (top_expr-Layout e (file_exprs quote false es ++ s) (bare_all es) formed
            (later_exprs-breaks es s b) (later_exprs-Layout es s later b end)))
