-- ===== src/Sexp/Layout/Parsed.antt =====
-- Whatever the parser (internal/gesssexp/parser.go) returns is well formed: its bare atoms are words
-- and its comments are comments.
use gess.Prelude.{
  Bool, true, false, not, ◌&&◌, ◌||◌, some, Option-cases, List, [], ◌∷◌, ◌++◌, ◌==◌, nat_eq,
  list_eq, list_beq, ◌≡◌, refl, inl, inr, arith, Text, codes,
}
use gess.Sexp.Syntax.{Expr, Exprs, atom, list, nil, cons, append, last_expr, set_last, Token}
use gess.Sexp.Parser.{with_leading, with_trailing, attach_comment, snoc}
use gess.Sexp.Layout.{is_word}
use gess.Sexp.Layout.Formed.{is_comment, all_comments, trivia_formed, formattable, all_formattable}

-- What the lexer guarantees of an expression.
unfoldable mutual
  unfolding trivia_formed is_word

  pub well_formed : Expr → Bool
  well_formed (atom text string t) = (string || is_word text) && trivia_formed t
  well_formed (list xs t) = all_well_formed xs && trivia_formed t

  pub all_well_formed : Exprs → Bool
  all_well_formed nil = true
  all_well_formed (cons x xs) = well_formed x && all_well_formed xs

-- No string in an expression reads "<-".
unfoldable mutual
  unfolding list_beq

  pub has_no_quoted_arrow : Expr → Bool
  has_no_quoted_arrow (atom text string t) = not (string && text == codes "<-")
  has_no_quoted_arrow (list xs t) = have_no_quoted_arrow xs

  pub have_no_quoted_arrow : Exprs → Bool
  have_no_quoted_arrow nil = true
  have_no_quoted_arrow (cons x xs) = has_no_quoted_arrow x && have_no_quoted_arrow xs

mutual
  unfolding well_formed has_no_quoted_arrow formattable

  formattable-well_formed :
      (e : Expr) → well_formed e ≡ true → has_no_quoted_arrow e ≡ true → formattable e ≡ true
  formattable-well_formed (atom text true t) w a = ground arith
  formattable-well_formed (atom text false t) w a = ground arith
  formattable-well_formed (list xs t) w a = ground (arith, all_formattable-well_formed xs)

  pub all_formattable-well_formed :
      (xs : Exprs)
      → all_well_formed xs ≡ true
      → have_no_quoted_arrow xs ≡ true
      → all_formattable xs ≡ true
  all_formattable-well_formed nil w a = refl
  all_formattable-well_formed (cons x xs) w a =
      ground (arith, formattable-well_formed x, all_formattable-well_formed xs)

all_comments-snoc :
    (cs : List Text) (c : Text)
    → all_comments cs ≡ true
    → is_comment c ≡ true
    → all_comments (cs ++ c ∷ []) ≡ true
unfolding all_comments
all_comments-snoc [] c h k = ground arith
all_comments-snoc (d ∷ cs) c h k = ground (arith, all_comments-snoc cs c)

pub all_well_formed-snoc :
    (xs : Exprs) (x : Expr)
    → all_well_formed xs ≡ true
    → well_formed x ≡ true
    → all_well_formed (snoc xs x) ≡ true
unfolding well_formed snoc append
all_well_formed-snoc nil x h k = ground arith
all_well_formed-snoc (cons y xs) x h k = ground (arith, all_well_formed-snoc xs x)

all_well_formed-set_last :
    (xs : Exprs) (x : Expr)
    → all_well_formed xs ≡ true
    → well_formed x ≡ true
    → all_well_formed (set_last xs x) ≡ true
unfolding well_formed set_last
all_well_formed-set_last nil x h k = refl
all_well_formed-set_last (cons y nil) x h k = ground arith
all_well_formed-set_last (cons y (cons z zs)) x h k =
    ground (arith, all_well_formed-set_last (cons z zs) x)

well_formed-last :
    (xs : Exprs) (x : Expr)
    → all_well_formed xs ≡ true
    → last_expr xs ≡ some x
    → well_formed x ≡ true
unfolding well_formed last_expr
well_formed-last nil x h e = cc
well_formed-last (cons y nil) x h e = ground arith
well_formed-last (cons y (cons z zs)) x h e = ground (arith, well_formed-last (cons z zs) x)

pub well_formed-with_leading :
    (e : Expr) (cs : List Text)
    → well_formed e ≡ true
    → all_comments cs ≡ true
    → well_formed (with_leading e cs) ≡ true
unfolding well_formed with_leading
well_formed-with_leading (atom text string t) cs h k = ground arith
well_formed-with_leading (list xs t) cs h k = ground arith

well_formed-with_trailing :
    (e : Expr) (c : Text)
    → well_formed e ≡ true
    → is_comment c ≡ true
    → well_formed (with_trailing e c) ≡ true
unfolding well_formed with_trailing
well_formed-with_trailing (atom text string t) c h k = ground arith
well_formed-with_trailing (list xs t) c h k = ground arith

-- Attaching a comment keeps what is there well formed.
pub attach_comment-formed :
    (tok : Token) (xs : Exprs) (pending : List Text)
    → is_comment tok.text ≡ true
    → all_well_formed xs ≡ true
    → all_comments pending ≡ true
    → (all_well_formed (attach_comment tok xs pending).0 ≡ true)
      × (all_comments (attach_comment tok xs pending).1 ≡ true)
unfolding attach_comment
attach_comment-formed tok xs pending c h k =
    let waits = all_comments-snoc pending tok.text k c in
    elim (Option-cases (last_expr xs)) [
      | inl e ↦ rw (attach_comment, e) (h, waits)
      | inr (x, e) ↦
          let ended = well_formed-with_trailing x tok.text (well_formed-last xs x h e) c in
          let set = all_well_formed-set_last xs (with_trailing x tok.text) h ended in
          rw (attach_comment, e) (ground arith, ground arith)
    ]
