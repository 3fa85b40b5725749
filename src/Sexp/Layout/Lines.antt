-- ===== src/Sexp/Layout/Lines.antt =====
-- The pieces of `writeExpr` and its callees (internal/gesssexp/format.go): what starts a line, and what
-- one child, one binding or one attached list adds to a layout.
use gess.Prelude.{
  append-nil, Bool, true, false, Bool-cases, List, [], ◌∷◌, ◌++◌, ℕ, nat_eq, list_eq, list_beq_iff,
  ◌≡◌, refl, sym, ap, subst, inl, inr, append_assoc, arith, Text, codes, is_space,
}
use gess.Sexp.Syntax.{Trivia, Expr, Exprs, atom, list, nil, cons, append, newline, trivia}
use gess.Sexp.Format.{
  write_indent, child_line, open_paren, close_paren, can_write_binding_pattern,
  can_attach_nested_head, is_trivia_free, write_atom,
}
use gess.Sexp.Format.Write.{inline_rest, head_line, child_lines, plain_lines}
use gess.Sexp.Layout.{
  inner_comments, comments, trailing_comments, bare_all, bare, blank, apart, breaks, Ending,
  in_list, Reads, word, quoted, parens, Layout, child,
}
use gess.Sexp.Layout.Bare.{append_nil}
use gess.Sexp.Layout.Formed.{formattable, trivia_formed, all_comments, formattable-trivia}
use gess.Sexp.Layout.Comments.{regroup_comments}
use gess.Sexp.Layout.Pieces.{
  recount, apart_of_breaks, regroup, child_line-Layout, close_line-Layout,
}

-- A middle child that passes the binding test is the atom "<-".
pub bare_binding :
    (x y z : Expr)
    → can_write_binding_pattern x y z ≡ true
    → formattable y ≡ true
    → bare y ≡ atom (codes "<-") false blank
unfolding can_write_binding_pattern formattable bare
bare_binding x y (atom text string t) h f = cc
bare_binding x y (list nil t) h f = cc
bare_binding x (list xs u) (list (cons k kids) t) h f = ground arith
bare_binding x (atom text true u) (list (cons k kids) t) h f = ground arith
bare_binding x (atom text false u) (list (cons k kids) t) h f =
    ap (λ name. atom name false blank) ((list_beq_iff text (codes "<-")).0 (ground arith))

pub trivia_formed-dangling : (t : Trivia) → trivia_formed t ≡ true → all_comments t.dangling ≡ true
unfolding trivia_formed
trivia_formed-dangling t h = ground arith

pub whole :
    {quote : Text → Text} {w : Text} {ys : Exprs} {cs : List Text}
    → Layout quote in_list w (append ys nil) cs
    → Layout quote in_list w ys cs
whole {quote} {w} {ys} {cs} lay = subst (λ zs. Layout quote in_list w zs cs) (append_nil ys) lay

module _ (quote : Text → Text) where
  pub inline_rest-apart : (xs : Exprs) → apart (inline_rest quote xs) ≡ true
  unfolding inline_rest apart is_space
  inline_rest-apart nil = refl
  inline_rest-apart (cons x xs) = refl

  pub plain_lines-breaks :
      (xs : Exprs) (indent : ℕ) (s : Text)
      → breaks s ≡ true
      → breaks (plain_lines quote xs indent ++ s) ≡ true
  unfolding plain_lines child_line breaks
  plain_lines-breaks nil indent s b = b
  plain_lines-breaks (cons x xs) indent s b = refl

  pub child_lines-breaks :
      (xs : Exprs) (indent : ℕ) (s : Text)
      → breaks s ≡ true
      → breaks (child_lines quote xs indent ++ s) ≡ true
  unfolding child_lines child_line breaks
  child_lines-breaks nil indent s b = b
  child_lines-breaks (cons x nil) indent s b = refl
  child_lines-breaks (cons x (cons y nil)) indent s b = refl
  child_lines-breaks (cons x (cons y (cons z zs))) indent s b =
      elim (Bool-cases (can_write_binding_pattern x y z)) [
        | inl e ↦ rw (child_lines, e)
        | inr e ↦ rw (child_lines, e)
      ]

  pub head_line-apart :
      (xs : Exprs) (h : Expr) (index indent : ℕ) (s : Text)
      → breaks s ≡ true
      → apart (head_line quote xs h index indent ++ s) ≡ true
  unfolding head_line child_line apart is_space
  head_line-apart nil h index indent s b = apart_of_breaks s b
  head_line-apart (cons (atom text string t) xs) h index indent s b =
      elim (Bool-cases (is_trivia_free t)) [ inl e ↦ rw (head_line, e) | inr e ↦ rw (head_line, e) ]
  head_line-apart (cons (list nil t) xs) h index indent s b = refl
  head_line-apart (cons (list (cons k kids) t) xs) h index indent s b =
      elim (Bool-cases (can_attach_nested_head h index (cons (list (cons k kids) t) xs))) [
        | inl e ↦ rw (head_line, e)
        | inr e ↦ rw (head_line, e)
      ]

  -- What is written in front of a text that begins a line.
  abbrev pub Lines : Text → Exprs → List Text → Type 0
  Lines w ys cs =
      (ending : Ending) (s : Text) (xs : Exprs) (ds : List Text)
      → breaks s ≡ true
      → Layout quote ending s xs ds
      → Layout quote ending (w ++ s) (append ys xs) (cs ++ ds)

  pub child_line-breaks : (t : Trivia) (n : ℕ) (w s : Text) → breaks (child_line t n w ++ s) ≡ true
  unfolding child_line breaks
  child_line-breaks t n w s = refl

  -- A child's lines before others.
  pub line_then :
      (w v : Text) (e : Expr) (ys : Exprs) (n : ℕ)
      → formattable e ≡ true
      → Reads quote w (bare e) (inner_comments e)
      → ((s : Text) → breaks s ≡ true → breaks (v ++ s) ≡ true)
      → Lines v (bare_all ys) (comments ys)
      → Lines (child_line (trivia e) n w ++ v) (cons (bare e) (bare_all ys)) (comments (cons e ys))
  unfolding append comments
  line_then w v e ys n h rd led more ending s xs ds b lay =
      regroup (child_line (trivia e) n w ++ (v ++ s)) _ (sym (append_assoc _ v s)) (
        recount _ _
          (regroup_comments (trivia e).leading (inner_comments e)
            (trailing_comments (trivia e).trailing) (comments ys) ds)
          (child_line-Layout (trivia e) n (formattable-trivia e h) rd (led s b)
            (more ending s xs ds b lay)))

  -- A list after its parent's head, closed on a line of its own.
  pub attached-Reads :
      {w : Text} {x : Expr} {bs : List Text} (v : Text) (xs : Exprs) (cs : List Text) (n : ℕ)
      → Reads quote w x bs
      → ((s : Text) → breaks s ≡ true → breaks (v ++ s) ≡ true)
      → Lines v xs cs
      → Reads quote
          (open_paren ∷ (w ++ (v ++ (newline ∷ (write_indent n ++ close_paren ∷ [])))))
          (list (cons x xs) blank)
          (bs ++ cs)
  unfolding breaks
  attached-Reads {bs} v xs cs n rd led lines =
      let end = newline ∷ (write_indent n ++ close_paren ∷ []) in
      parens _ (
        child _ _ rd (apart_of_breaks _ (led end refl)) (
          recount (cs ++ []) cs (append-nil cs)
            (whole (lines in_list end nil [] refl (close_line-Layout n)))))

  pub write_atom-Reads :
      (text : Text) (string : Bool) (t : Trivia)
      → formattable (atom text string t) ≡ true
      → Reads quote (write_atom quote text string) (atom text string blank) []
  unfolding write_atom formattable
  write_atom-Reads text false t h = word text (ground arith)
  write_atom-Reads text true t h = quoted text
