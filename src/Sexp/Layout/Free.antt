-- ===== src/Sexp/Layout/Free.antt =====
-- The comments of an expression that the formatter (internal/gesssexp/format.go) writes on one line.
use gess.Prelude.{
  Bool, true, false, not, ◌&&◌, ◌||◌, [], ◌∷◌, ◌++◌, ℕ, ◌≡◌, refl, sym, ap, ◌∙◌, append-nil, arith,
  Text, ◌==◌, nat_eq, list_eq, codes, leb,
}
use gess.Sexp.Syntax.{Trivia, Expr, Exprs, atom, list, nil, cons, trivia, is_atom, text_of, count}
use gess.Sexp.Parser.{is_empty}
use gess.Sexp.Format.{
  FormatMode, format_auto, format_expanded, format_inline, is_trivia_free, expr_trivia_free,
  expr_inner_trivia, any_trivia, can_write_binding_pattern, can_attach_nested_head, is_assert,
  should_inline, head_allows_inline, all_inline, inline_len,
}
use gess.Sexp.Format.Write.{writes_inline}
use gess.Sexp.Layout.Comments.{no_comments}
use gess.Sexp.Layout.{inner_comments, comments, trailing_comments}

and_first : (a b c d e f : Bool) → (a && b && c && d && e && f) ≡ true → a ≡ true
and_first a b c d e f h = ground arith

and_last_two : (a b c d e f : Bool) → (a && b && c && d && e && f) ≡ true → (e ≡ true) × (f ≡ true)
and_last_two a b c d e f h = (ground arith, ground arith)

and_ends :
    (a b c d e f g : Bool)
    → (a && b && c && d && e && f && g) ≡ true
    → (b ≡ true) × (e ≡ true) × (f ≡ true) × (g ≡ true)
and_ends a b c d e f g h = (ground arith, ground arith, ground arith, ground arith)

no_inner : (a b : Bool) → not (not a || b) ≡ true → (a ≡ true) × (b ≡ false)
no_inner a b h = (ground arith, ground arith)

no_trivia : (a b c : Bool) → (not a || b || c) ≡ false → (a ≡ true) × (c ≡ false)
no_trivia a b c h = (ground arith, ground arith)

no_trailing : (s : Text) → is_empty s ≡ true → trailing_comments s ≡ []
unfolding trailing_comments
no_trailing [] h = refl
no_trailing (c ∷ s) h = cc

and_two : (a b : Bool) → (a && b) ≡ true → (a ≡ true) × (b ≡ true)
and_two a b h = (ground arith, ground arith)

is_trivia_free-parts :
    (t : Trivia) → is_trivia_free t ≡ true → (t.leading ≡ []) × (trailing_comments t.trailing ≡ [])
unfolding is_trivia_free
is_trivia_free-parts t h =
    let (a, b) = and_two (is_empty t.leading) (is_empty t.trailing) h in
    (no_comments t.leading a, no_trailing t.trailing b)

-- An expression that carries no comments has only those inside it.
pub comments-free :
    (x : Expr) (xs : Exprs)
    → expr_trivia_free x ≡ true
    → inner_comments x ++ comments xs ≡ comments (cons x xs)
unfolding comments expr_trivia_free
comments-free x xs h = let (a, b) = is_trivia_free-parts (trivia x) h in rw (a, b) refl

expr_inner_trivia-parts :
    (xs : Exprs) (t : Trivia)
    → not (expr_inner_trivia (list xs t)) ≡ true
    → (any_trivia xs ≡ false) × (t.dangling ≡ [])
unfolding expr_inner_trivia
expr_inner_trivia-parts xs t h =
    let (a, b) = no_inner (is_empty t.dangling) (any_trivia xs) h in (b, no_comments t.dangling a)

pub any_trivia-parts :
    (x : Expr) (xs : Exprs)
    → any_trivia (cons x xs) ≡ false
    → (expr_trivia_free x ≡ true) × (any_trivia xs ≡ false)
unfolding any_trivia
any_trivia-parts x xs h = no_trivia (expr_trivia_free x) (expr_inner_trivia x) (any_trivia xs) h

module _ (quote : Text → Text) where
  should_inline-free :
      (xs : Exprs) (t : Trivia)
      → should_inline quote (list xs t) ≡ true
      → not (expr_inner_trivia (list xs t)) ≡ true
  unfolding should_inline
  should_inline-free nil t h = h
  should_inline-free (cons x xs) t h =
      and_first (not (expr_inner_trivia (list (cons x xs) t))) (head_allows_inline (cons x xs))
        (leb (count (cons x xs)) 4) (should_inline quote x) (all_inline quote xs)
        (leb (inline_len quote (list (cons x xs) t)) 88) h

  -- A list that is written inline has no comments in it but those inside its elements.
  pub writes_inline-free :
      (mode : FormatMode) (xs : Exprs) (t : Trivia)
      → writes_inline quote mode (list xs t) ≡ true
      → (any_trivia xs ≡ false) × (t.dangling ≡ [])
  unfolding writes_inline
  writes_inline-free format_auto xs t h = expr_inner_trivia-parts xs t (should_inline-free xs t h)
  writes_inline-free format_inline xs t h = expr_inner_trivia-parts xs t (should_inline-free xs t h)
  writes_inline-free format_expanded xs t h = cc

-- A list that is attached to the head before it.
pub comments-attached :
    (h : Expr) (index : ℕ) (k : Expr) (kids : Exprs) (t : Trivia) (xs : Exprs)
    → can_attach_nested_head h index (cons (list (cons k kids) t) xs) ≡ true
    → (inner_comments k ++ comments kids) ++ comments xs ≡ comments (cons (list (cons k kids) t) xs)
unfolding can_attach_nested_head inner_comments expr_trivia_free
comments-attached h index k kids t (cons y ys) e = cc
comments-attached h index k kids t nil e =
    let (free, inner) =
      and_last_two (index == 1) (is_atom h) (is_assert (text_of h)) (is_atom k) (is_trivia_free t)
        (not (expr_inner_trivia (list (cons k kids) t))) e in
    let (none_in, none_dangling) = expr_inner_trivia-parts (cons k kids) t inner in
    let (head_free, kids_free) = any_trivia-parts k kids none_in in
    let within : inner_comments k ++ comments kids ≡ comments (cons k kids) ++ t.dangling =
      comments-free k kids head_free
      ∙ sym (append-nil (comments (cons k kids)))
      ∙ ap (λ ds. comments (cons k kids) ++ ds) (sym none_dangling) in
    ap (λ ds. ds ++ comments nil) within ∙ comments-free (list (cons k kids) t) nil free

inner_atom : (y : Expr) → is_atom y ≡ true → inner_comments y ≡ []
unfolding inner_comments is_atom
inner_atom (atom text string t) h = refl
inner_atom (list xs t) h = cc

free_list :
    (xs : Exprs) (t : Trivia) → is_trivia_free t ≡ true → expr_trivia_free (list xs t) ≡ true
unfolding expr_trivia_free
free_list xs t h = h

-- A binding, its arrow and its pattern.
pub comments-binding :
    (x y z : Expr) (zs : Exprs)
    → can_write_binding_pattern x y z ≡ true
    → inner_comments x ++ (inner_comments z ++ comments zs) ≡ comments (cons x (cons y (cons z zs)))
unfolding can_write_binding_pattern
comments-binding x y (atom text string t) zs h = cc
comments-binding x y (list nil t) zs h = cc
comments-binding x y (list (cons k kids) t) zs h =
    let (arrow, free_x, free_y, free_z) =
      and_ends (is_atom x) (is_atom y) (text_of y == codes "<-") (is_atom k) (expr_trivia_free x)
        (expr_trivia_free y) (is_trivia_free t) h in
    ap (λ ds. inner_comments x ++ ds)
      (comments-free (list (cons k kids) t) zs (free_list (cons k kids) t free_z)
        ∙ ap (λ ds. ds ++ comments (cons (list (cons k kids) t) zs)) (sym (inner_atom y arrow))
        ∙ comments-free y (cons (list (cons k kids) t) zs) free_y)
    ∙ comments-free x (cons y (cons (list (cons k kids) t) zs)) free_x
