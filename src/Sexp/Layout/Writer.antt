-- ===== src/Sexp/Layout/Writer.antt =====
-- The layout of what `writeExpr` and its callees (internal/gesssexp/format.go) write.
use gess.Prelude.{
  ◌∙◌, append-nil, Bool, true, false, Bool-cases, List, [], ◌∷◌, ◌++◌, ℕ, suc, ◌+◌, nat_eq, list_eq,
  ◌≡◌, refl, sym, ap, inl, inr, append_assoc, arith, Text, codes,
}
use gess.Sexp.Syntax.{Trivia, Expr, Exprs, atom, list, nil, cons, append, newline, trivia}
use gess.Sexp.Format.{
  any_trivia, FormatMode, format_auto, format_inline, space, indent_width, write_indent, open_paren,
  close_paren, can_write_binding_pattern, can_attach_nested_head, is_trivia_free, expr_trivia_free,
  write_atom,
}
use gess.Sexp.Format.Write.{
  writes_inline, write_expr, inline_list, inline_rest, expanded_list, head_line, child_lines,
  plain_lines, pattern_of,
}
use gess.Sexp.Layout.{
  inner_comments, comments, trailing_comments, bare, bare_all, in_list, Reads, parens, Layout,
  close, spaced, child,
}
use gess.Sexp.Layout.Formed.{formattable, all_formattable, all_comments, formattable-trivia}
use gess.Sexp.Layout.Comments.{regroup_comments}
use gess.Sexp.Layout.Free.{
  comments-free, any_trivia-parts, writes_inline-free, comments-attached, comments-binding,
}
use gess.Sexp.Layout.Pieces.{
  recount, apart_of_breaks, regroup, space-is_space, child_line-Layout, binding_line-Layout,
  dangling_and_close-Layout,
}
use gess.Sexp.Layout.Lines.{
  bare_binding, trivia_formed-dangling, whole, inline_rest-apart, plain_lines-breaks,
  child_lines-breaks, head_line-apart, child_line-breaks, Lines, line_then, attached-Reads,
  write_atom-Reads,
}

free_then :
    (k : Expr) (xs : Exprs) (ds : List Text)
    → expr_trivia_free k ≡ true
    → inner_comments k ++ (comments xs ++ ds) ≡ comments (cons k xs) ++ ds
free_then k xs ds h =
    sym (append_assoc (inner_comments k) (comments xs) ds)
    ∙ ap (λ bs. bs ++ ds) (comments-free k xs h)

lines_then :
    (k : Expr) (xs : Exprs) (ds : List Text)
    → (trivia k).leading
        ++ (inner_comments k ++ (trailing_comments (trivia k).trailing ++ (comments xs ++ ds)))
      ≡ comments (cons k xs) ++ ds
unfolding comments
lines_then k xs ds =
    regroup_comments (trivia k).leading (inner_comments k) (trailing_comments (trivia k).trailing)
      (comments xs) ds

binding_then :
    (x y z : Expr) (zs : Exprs) (ds : List Text)
    → can_write_binding_pattern x y z ≡ true
    → inner_comments x ++ (inner_comments z ++ (comments zs ++ ds))
      ≡ comments (cons x (cons y (cons z zs))) ++ ds
binding_then x y z zs ds h =
    ap (λ bs. inner_comments x ++ bs) (sym (append_assoc (inner_comments z) (comments zs) ds))
    ∙ sym (append_assoc (inner_comments x) (inner_comments z ++ comments zs) ds)
    ∙ ap (λ bs. bs ++ ds) (comments-binding x y z zs h)

free_atom :
    (text : Text) (string : Bool) (t : Trivia)
    → is_trivia_free t ≡ true
    → expr_trivia_free (atom text string t) ≡ true
unfolding expr_trivia_free
free_atom text string t h = h

module _ (quote : Text → Text) where
  mutual
    unfolding write_expr formattable bare append trivia expanded_list inner_comments

    pub write_expr-Reads :
        (e : Expr) (indent : ℕ) (mode : FormatMode)
        → formattable e ≡ true
        → Reads quote (write_expr quote e indent mode) (bare e) (inner_comments e)
    write_expr-Reads (atom text string t) indent mode h = write_atom-Reads quote text string t h
    write_expr-Reads (list xs t) indent mode h =
        let formed : all_formattable xs ≡ true = ground arith in
        let ends = trivia_formed-dangling t (ground arith) in
        elim (Bool-cases (writes_inline quote mode (list xs t))) [
          | inl e ↦
              let (free, none_dangling) = writes_inline-free quote mode xs t e in
              rw (write_expr, e)
                (parens _ (
                  recount (comments xs) (comments xs ++ t.dangling)
                    (sym (append-nil (comments xs))
                      ∙ ap (λ ds. comments xs ++ ds) (sym none_dangling))
                    (inline_list-Layout xs formed free)))
          | inr e ↦
              rw (write_expr, e) (parens _ (expanded_list-Layout xs t.dangling indent formed ends))
        ]

    inline_list-Layout :
        (xs : Exprs)
        → all_formattable xs ≡ true
        → any_trivia xs ≡ false
        → Layout quote in_list (inline_list quote xs) (bare_all xs) (comments xs)
    inline_list-Layout nil h a = close
    inline_list-Layout (cons x xs) h a =
        let (free, rest_free) = any_trivia-parts x xs a in
        let formed : formattable x ≡ true = ground arith in
        let rest_formed : all_formattable xs ≡ true = ground arith in
        recount _ _ (comments-free x xs free) (
          child _ _ (write_expr-Reads x 0 format_inline formed) (inline_rest-apart quote xs)
            (inline_rest-Layout xs rest_formed rest_free))

    inline_rest-Layout :
        (xs : Exprs)
        → all_formattable xs ≡ true
        → any_trivia xs ≡ false
        → Layout quote in_list (inline_rest quote xs) (bare_all xs) (comments xs)
    inline_rest-Layout nil h a = close
    inline_rest-Layout (cons x xs) h a =
        let (free, rest_free) = any_trivia-parts x xs a in
        let formed : formattable x ≡ true = ground arith in
        let rest_formed : all_formattable xs ≡ true = ground arith in
        spaced space _ space-is_space (
          recount _ _ (comments-free x xs free) (
            child _ _ (write_expr-Reads x 0 format_inline formed) (inline_rest-apart quote xs)
              (inline_rest-Layout xs rest_formed rest_free)))

    expanded_list-Layout :
        (xs : Exprs) (dangling : List Text) (indent : ℕ)
        → all_formattable xs ≡ true
        → all_comments dangling ≡ true
        → Layout quote in_list
            (expanded_list quote xs dangling indent)
            (bare_all xs)
            (comments xs ++ dangling)
    expanded_list-Layout nil [] indent h d = close
    expanded_list-Layout nil (c ∷ cs) indent h d = (dangling_and_close-Layout (c ∷ cs) indent d).1
    expanded_list-Layout (cons k xs) dangling indent h d =
        let head_formed : formattable k ≡ true = ground arith in
        let rest_formed : all_formattable xs ≡ true = ground arith in
        let (b, end) = dangling_and_close-Layout dangling indent d in
        elim (Bool-cases (expr_trivia_free k)) [
          | inl e ↦
              rw (expanded_list, e)
                (recount _ _ (free_then k xs dangling e) (
                  child _ _ (write_expr-Reads k (indent + indent_width) format_inline head_formed)
                    (head_line-apart quote xs k 1 indent _ b)
                    (whole
                      (head_line-Lines xs k 1 indent rest_formed in_list _ nil dangling b end))))
          | inr e ↦
              rw (expanded_list, e)
                (recount _ _ (lines_then k xs dangling) (
                  child_line-Layout (trivia k) (indent + indent_width)
                    (formattable-trivia k head_formed)
                    (write_expr-Reads k (indent + indent_width) format_auto head_formed)
                    (child_lines-breaks quote xs indent _ b)
                    (whole (child_lines-Lines xs indent rest_formed in_list _ nil dangling b end))))
        ]

    head_line-Lines :
        (xs : Exprs) (h : Expr) (index indent : ℕ)
        → all_formattable xs ≡ true
        → Lines quote (head_line quote xs h index indent) (bare_all xs) (comments xs)
    head_line-Lines nil h index indent f = λ ending s zs ds b lay. lay
    head_line-Lines (cons (atom text string t) xs) h index indent f =
        elim (Bool-cases (is_trivia_free t)) [
          | inl e ↦ λ ending s zs ds b lay.
              rw (head_line, e)
                (regroup
                  (space
                    ∷ (write_atom quote text string
                        ++ (head_line quote xs h (suc index) indent ++ s)))
                  _ (ap (◌∷◌ space) (sym (append_assoc (write_atom quote text string) _ s)))
                  (spaced space _ space-is_space (
                    recount _ _
                      (ap (λ bs. bs ++ ds)
                        (comments-free (atom text string t) xs (free_atom text string t e)))
                      (child _ _
                        (write_expr-Reads (atom text string t) indent format_inline (ground arith))
                        (head_line-apart quote xs h (suc index) indent s b)
                        (head_line-Lines xs h (suc index) indent (ground arith) ending s zs ds b
                          lay)))))
          | inr e ↦ λ ending s zs ds b lay.
              rw (head_line, e)
                (line_then quote _ _ (atom text string t) xs (indent + indent_width) (ground arith)
                  (write_expr-Reads (atom text string t) indent format_inline (ground arith))
                  (child_lines-breaks quote xs indent) (child_lines-Lines xs indent (ground arith))
                  ending s zs ds b lay)
        ]
    head_line-Lines (cons (list nil t) xs) h index indent f =
        line_then quote _ _ (list nil t) xs (indent + indent_width) (ground arith)
          (write_expr-Reads (list nil t) (indent + indent_width) format_auto (ground arith))
          (child_lines-breaks quote xs indent) (child_lines-Lines xs indent (ground arith))
    head_line-Lines (cons (list (cons k kids) t) xs) h index indent f =
        elim (Bool-cases (can_attach_nested_head h index (cons (list (cons k kids) t) xs))) [
          | inl e ↦ λ ending s zs ds b lay.
              let attached =
                open_paren
                ∷ (write_expr quote k (indent + indent_width) format_inline
                    ++ (plain_lines quote kids indent
                        ++ (newline ∷ (write_indent indent ++ close_paren ∷ [])))) in
              rw (head_line, e)
                (spaced space _ space-is_space (
                  regroup (attached ++ (child_lines quote xs indent ++ s)) _
                    (sym (append_assoc attached (child_lines quote xs indent) s))
                    (recount _ _
                      (sym (append_assoc (inner_comments k ++ comments kids) (comments xs) ds)
                        ∙ ap (λ bs. bs ++ ds) (comments-attached h index k kids t xs e))
                      (child _ _
                        (attached-Reads quote (plain_lines quote kids indent) (bare_all kids)
                          (comments kids) indent
                          (write_expr-Reads k (indent + indent_width) format_inline (ground arith))
                          (plain_lines-breaks quote kids indent)
                          (plain_lines-Lines kids indent (ground arith)))
                        (apart_of_breaks _ (child_lines-breaks quote xs indent s b))
                        (child_lines-Lines xs indent (ground arith) ending s zs ds b lay)))))
          | inr e ↦ λ ending s zs ds b lay.
              rw (head_line, e)
                (line_then quote _ _ (list (cons k kids) t) xs (indent + indent_width)
                  (ground arith)
                  (write_expr-Reads (list (cons k kids) t) (indent + indent_width) format_auto
                    (ground arith))
                  (child_lines-breaks quote xs indent) (child_lines-Lines xs indent (ground arith))
                  ending s zs ds b lay)
        ]

    child_lines-Lines :
        (xs : Exprs) (indent : ℕ)
        → all_formattable xs ≡ true
        → Lines quote (child_lines quote xs indent) (bare_all xs) (comments xs)
    child_lines-Lines nil indent f = λ ending s zs ds b lay. lay
    child_lines-Lines (cons x nil) indent f = λ ending s zs ds b lay.
        recount _ _ (lines_then x nil ds) (
          child_line-Layout (trivia x) (indent + indent_width) (formattable-trivia x (ground arith))
            (write_expr-Reads x (indent + indent_width) format_auto (ground arith)) b lay)
    child_lines-Lines (cons x (cons y nil)) indent f =
        line_then quote _ _ x (cons y nil) (indent + indent_width) (ground arith)
          (write_expr-Reads x (indent + indent_width) format_auto (ground arith))
          (λ s b. child_line-breaks quote (trivia y) (indent + indent_width) _ s)
          (λ ending s zs ds b lay. recount _ _ (lines_then y nil ds) (
            child_line-Layout (trivia y) (indent + indent_width)
              (formattable-trivia y (ground arith))
              (write_expr-Reads y (indent + indent_width) format_auto (ground arith)) b lay))
    child_lines-Lines (cons x (cons y (cons z zs))) indent f =
        elim (Bool-cases (can_write_binding_pattern x y z)) [
          | inl e ↦ λ ending s rest ds b lay.
              let line =
                newline
                ∷ (write_indent (indent + indent_width)
                    ++ (write_expr quote x (indent + indent_width) format_inline
                        ++ (codes " <- " ++ pattern_of quote z (indent + indent_width)))) in
              rw (child_lines, e, bare_binding x y z e (ground arith))
                (regroup (line ++ (child_lines quote zs indent ++ s)) _
                  (sym (append_assoc line (child_lines quote zs indent) s))
                  (recount _ _ (binding_then x y z zs ds e) (
                    binding_line-Layout (indent + indent_width)
                      (write_expr-Reads x (indent + indent_width) format_inline (ground arith))
                      (pattern_of-Reads z (indent + indent_width) (ground arith))
                      (apart_of_breaks _ (child_lines-breaks quote zs indent s b))
                      (child_lines-Lines zs indent (ground arith) ending s rest ds b lay))))
          | inr e ↦ λ ending s rest ds b lay.
              rw (child_lines, e)
                (line_then quote _ _ x (cons y (cons z zs)) (indent + indent_width) (ground arith)
                  (write_expr-Reads x (indent + indent_width) format_auto (ground arith))
                  (child_lines-breaks quote (cons y (cons z zs)) indent)
                  (child_lines-Lines (cons y (cons z zs)) indent (ground arith)) ending s rest ds b
                  lay)
        ]

    plain_lines-Lines :
        (xs : Exprs) (indent : ℕ)
        → all_formattable xs ≡ true
        → Lines quote (plain_lines quote xs indent) (bare_all xs) (comments xs)
    plain_lines-Lines nil indent f = λ ending s zs ds b lay. lay
    plain_lines-Lines (cons x xs) indent f =
        line_then quote _ _ x xs (indent + indent_width) (ground arith)
          (write_expr-Reads x (indent + indent_width) format_auto (ground arith))
          (plain_lines-breaks quote xs indent) (plain_lines-Lines xs indent (ground arith))

    pattern_of-Reads :
        (e : Expr) (indent : ℕ)
        → formattable e ≡ true
        → Reads quote (pattern_of quote e indent) (bare e) (inner_comments e)
    pattern_of-Reads (atom text string t) indent h = write_atom-Reads quote text string t h
    pattern_of-Reads (list nil t) indent h =
        parens _ (
          expanded_list-Layout nil t.dangling indent refl (trivia_formed-dangling t (ground arith)))
    pattern_of-Reads (list (cons k kids) t) indent h =
        let head_formed : formattable k ≡ true = ground arith in
        let rest_formed : all_formattable kids ≡ true = ground arith in
        let both : all_formattable (cons k kids) ≡ true = ground arith in
        let formed = trivia_formed-dangling t (ground arith) in
        let (b, end) = dangling_and_close-Layout t.dangling indent formed in
        elim (Bool-cases (expr_trivia_free k)) [
          | inl e ↦
              rw (pattern_of, e)
                (parens _ (
                  recount _ _ (free_then k kids t.dangling e) (
                    child _ _ (write_expr-Reads k indent format_inline head_formed)
                      (apart_of_breaks _ (plain_lines-breaks quote kids indent _ b))
                      (whole (
                        plain_lines-Lines kids indent rest_formed in_list _ nil t.dangling b
                          end)))))
          | inr e ↦
              rw (pattern_of, e)
                (parens _ (expanded_list-Layout (cons k kids) t.dangling indent both formed))
        ]

  -- Between an atom and a list whose head is an atom, none of the three with comments, the string "<-"
  -- is written as the symbol <- is, without its quotes.
  pub child_lines-quoted_arrow :
      (x z : Expr) (zs : Exprs) (t : Trivia) (indent : ℕ)
      → can_write_binding_pattern x (atom (codes "<-") true t) z ≡ true
      → child_lines quote (cons x (cons (atom (codes "<-") true t) (cons z zs))) indent
        ≡ child_lines quote (cons x (cons (atom (codes "<-") false t) (cons z zs))) indent
  unfolding child_lines
  child_lines-quoted_arrow x z zs t indent h = rw (child_lines, h) refl
