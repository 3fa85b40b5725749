-- ===== src/Sexp/Format/Write.antt =====
-- `writeExpr` and the functions that it calls and that call it, and `Format`
-- (internal/gesssexp/format.go).
use gess.Prelude.{
  if◌then◌else◌, Bool, true, false, Option, List, [], ◌∷◌, ◌++◌, ℕ, suc, ◌+◌, Text, codes,
}
use gess.Sexp.Syntax.{Outcome, ◌>>=◌, done, Expr, Exprs, atom, list, nil, cons, trivia, newline}
use gess.Sexp.Parser.{is_empty, parse_all}
use gess.Sexp.Format.{
  FormatMode, format_auto, format_expanded, format_inline, open_paren, close_paren, space,
  indent_width, write_indent, is_trivia_free, expr_trivia_free, comment_lines, write_trailing,
  child_line, dangling_and_close, can_write_binding_pattern, can_attach_nested_head, write_atom,
  should_inline,
}

-- What follows the last expression of the file.
unfoldable pub after_exprs : Exprs → List Text → Text
unfolding comment_lines
after_exprs nil tail = comment_lines 0 tail
after_exprs (cons e es) [] = newline ∷ []
after_exprs (cons e es) (c ∷ cs) = newline ∷ (newline ∷ comment_lines 0 (c ∷ cs))

module _ (quote : Text → Text) where
  unfoldable pub writes_inline : FormatMode → Expr → Bool
  unfolding should_inline
  writes_inline format_expanded e = false
  writes_inline format_auto e = should_inline quote e
  writes_inline format_inline e = should_inline quote e

  unfoldable mutual
    unfolding writes_inline write_atom child_line dangling_and_close can_write_binding_pattern
        can_attach_nested_head expr_trivia_free

    pub write_expr : Expr → ℕ → FormatMode → Text
    write_expr (atom text string t) indent mode = write_atom quote text string
    write_expr (list xs t) indent mode = open_paren ∷ elim (writes_inline mode (list xs t)) [
      | true ↦ inline_list xs
      | false ↦ expanded_list xs t.dangling indent
    ]

    -- `writeInlineList` behind its parenthesis, and its later children.
    pub inline_list : Exprs → Text
    inline_list nil = close_paren ∷ []
    inline_list (cons x xs) = write_expr x 0 format_inline ++ inline_rest xs

    pub inline_rest : Exprs → Text
    inline_rest nil = close_paren ∷ []
    inline_rest (cons x xs) = space ∷ (write_expr x 0 format_inline ++ inline_rest xs)

    -- `writeExpandedList` behind its parenthesis. A head with comments is the first of the lines;
    -- the binding test is false for it.
    pub expanded_list : Exprs → List Text → ℕ → Text
    expanded_list nil dangling indent =
        if is_empty dangling then close_paren ∷ [] else dangling_and_close dangling indent
    expanded_list (cons h xs) dangling indent = elim (expr_trivia_free h) [
      | true ↦
          write_expr h (indent + indent_width) format_inline
          ++ (head_line xs h 1 indent ++ dangling_and_close dangling indent)
      | false ↦
          child_line (trivia h) (indent + indent_width)
            (write_expr h (indent + indent_width) format_auto)
          ++ (child_lines xs indent ++ dangling_and_close dangling indent)
    ]

    -- The children on the head's line, from the child at `index` on, and all that follow them. A
    -- child that ends the run is no binding: it is a list, or it carries comments.
    pub head_line : Exprs → Expr → ℕ → ℕ → Text
    head_line nil h index indent = []
    head_line (cons (atom text string t) xs) h index indent = elim (is_trivia_free t) [
      | true ↦ space ∷ (write_atom quote text string ++ head_line xs h (suc index) indent)
      | false ↦
          child_line t (indent + indent_width) (write_atom quote text string)
          ++ child_lines xs indent
    ]
    head_line (cons (list nil t) xs) h index indent =
        child_line t (indent + indent_width)
          (write_expr (list nil t) (indent + indent_width) format_auto)
        ++ child_lines xs indent
    head_line (cons (list (cons inner kids) t) xs) h index indent =
        elim (can_attach_nested_head h index (cons (list (cons inner kids) t) xs)) [
          | true ↦
              space
                ∷ (open_paren
                    ∷ (write_expr inner (indent + indent_width) format_inline
                        ++ (plain_lines kids indent
                            ++ (newline ∷ (write_indent indent ++ close_paren ∷ [])))))
              ++ child_lines xs indent
          | false ↦
              child_line t (indent + indent_width)
                (write_expr (list (cons inner kids) t) (indent + indent_width) format_auto)
              ++ child_lines xs indent
        ]

    -- The last loop of `writeExpandedList`.
    pub child_lines : Exprs → ℕ → Text
    child_lines nil indent = []
    child_lines (cons x nil) indent =
        child_line (trivia x) (indent + indent_width)
          (write_expr x (indent + indent_width) format_auto)
    child_lines (cons x (cons y nil)) indent =
        child_line (trivia x) (indent + indent_width)
          (write_expr x (indent + indent_width) format_auto)
        ++ child_line (trivia y) (indent + indent_width)
            (write_expr y (indent + indent_width) format_auto)
    child_lines (cons x (cons y (cons z zs))) indent = elim (can_write_binding_pattern x y z) [
      | true ↦
          newline
            ∷ (write_indent (indent + indent_width)
                ++ (write_expr x (indent + indent_width) format_inline
                    ++ (codes " <- " ++ pattern_of z (indent + indent_width))))
          ++ child_lines zs indent
      | false ↦
          child_line (trivia x) (indent + indent_width)
            (write_expr x (indent + indent_width) format_auto)
          ++ child_lines (cons y (cons z zs)) indent
    ]

    -- Children on lines of their own, with no binding patterns.
    pub plain_lines : Exprs → ℕ → Text
    plain_lines nil indent = []
    plain_lines (cons x xs) indent =
        child_line (trivia x) (indent + indent_width)
          (write_expr x (indent + indent_width) format_auto)
        ++ plain_lines xs indent

    -- `writeBindingPattern` behind its arrow.
    pub pattern_of : Expr → ℕ → Text
    pattern_of (atom text string t) indent = write_atom quote text string
    pattern_of (list nil t) indent = open_paren ∷ expanded_list nil t.dangling indent
    pattern_of (list (cons h kids) t) indent = elim (expr_trivia_free h) [
      | true ↦
          open_paren
          ∷ (write_expr h indent format_inline
              ++ (plain_lines kids indent ++ dangling_and_close t.dangling indent))
      | false ↦ open_paren ∷ expanded_list (cons h kids) t.dangling indent
    ]

  -- The loop of `Format`; `first` is `i == 0`.
  unfoldable pub file_exprs : Bool → Exprs → Text
  unfolding comment_lines write_expr write_trailing
  file_exprs first nil = []
  file_exprs first (cons e es) =
      (if first then [] else newline ∷ (newline ∷ []))
      ++ (comment_lines 0 (trivia e).leading
          ++ (write_expr e 0 format_expanded
              ++ (write_trailing (trivia e).trailing ++ file_exprs false es)))

  unfoldable pub format_exprs : Exprs → List Text → Text
  unfolding file_exprs after_exprs
  format_exprs exprs tail = file_exprs true exprs ++ after_exprs exprs tail

  -- `Format`
  unfoldable pub format : (Text → Option (ℕ × Text)) → Text → Text → Outcome Text
  unfolding parse_all format_exprs
  format unquote_char name source =
      parse_all unquote_char name source >>= λ (exprs, tail). done (format_exprs exprs tail)
