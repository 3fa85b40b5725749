-- ===== src/Sexp/Layout/Bare.antt =====
-- Expressions without their comments and positions: adding children, and attaching comments, which
-- changes none (internal/gesssexp/parser.go).
use gess.Prelude.{some, List, ◌≡◌, refl, ap, arith, Text, Option-cases, inl, inr}
use gess.Sexp.Syntax.{Expr, Exprs, atom, list, nil, cons, append, Token, last_expr, set_last}
use gess.Sexp.Parser.{attach_comment, with_leading, with_trailing}
use gess.Sexp.Layout.{bare, bare_all}

pub append_nil : (xs : Exprs) → append xs nil ≡ xs
unfolding append
append_nil nil = refl
append_nil (cons x xs) = ap (cons x) (append_nil xs)

pub append-append : (xs ys zs : Exprs) → append (append xs ys) zs ≡ append xs (append ys zs)
unfolding append
append-append nil ys zs = refl
append-append (cons x xs) ys zs = ap (cons x) (append-append xs ys zs)

pub bare_all-append : (xs ys : Exprs) → bare_all (append xs ys) ≡ append (bare_all xs) (bare_all ys)
unfolding append bare_all
bare_all-append nil ys = refl
bare_all-append (cons x xs) ys = ap (cons (bare x)) (bare_all-append xs ys)

pub bare-with_leading : (e : Expr) (comments : List Text) → bare (with_leading e comments) ≡ bare e
unfolding bare with_leading
bare-with_leading (atom text string t) comments = refl
bare-with_leading (list xs t) comments = refl

bare-with_trailing : (e : Expr) (comment : Text) → bare (with_trailing e comment) ≡ bare e
unfolding bare with_trailing
bare-with_trailing (atom text string t) comment = refl
bare-with_trailing (list xs t) comment = refl

bare_all-set_last :
    (xs : Exprs) (e x : Expr)
    → last_expr xs ≡ some x
    → bare e ≡ bare x
    → bare_all (set_last xs e) ≡ bare_all xs
unfolding last_expr set_last bare_all
bare_all-set_last nil e x l h = cc
bare_all-set_last (cons y nil) e x l h = cc
bare_all-set_last (cons y (cons z zs)) e x l h =
    ap (cons (bare y)) (bare_all-set_last (cons z zs) e x l h)

-- A comment changes no expression.
pub bare_all-attach_comment :
    (tok : Token) (xs : Exprs) (pending : List Text)
    → bare_all (attach_comment tok xs pending).0 ≡ bare_all xs
unfolding attach_comment
bare_all-attach_comment tok xs pending = elim (Option-cases (last_expr xs)) [
  | inl e ↦ rw (attach_comment, e)
  | inr (x, e) ↦
      let kept =
        bare_all-set_last xs (with_trailing x tok.text) x e (bare-with_trailing x tok.text) in
      rw (attach_comment, e) (ground (arith, kept))
]
