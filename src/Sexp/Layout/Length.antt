-- ===== src/Sexp/Layout/Length.antt =====
-- `inlineLen` (internal/gesssexp/format.go) and the length of what is written inline.
use gess.Prelude.{
  Bool, true, false, not, ◌&&◌, leb, leb→le, [], ◌∷◌, ◌++◌, ℕ, ◌+◌, ◌≤◌, ◌≡◌, refl, ap, ◌∙◌, arith,
  Text,
}
use gess.Sexp.Syntax.{Trivia, Expr, Exprs, atom, list, nil, cons, count}
use gess.Sexp.Format.{
  format_auto, format_inline, open_paren, space, byte_length, inline_len, head_allows_inline,
  expr_inner_trivia, rest_len, should_inline, all_inline, write_atom, atom_len,
}
use gess.Sexp.Format.Write.{write_expr, inline_list, inline_rest, writes_inline}

byte_length-append : (s t : Text) → byte_length (s ++ t) ≡ byte_length s + byte_length t
unfolding byte_length
byte_length-append [] t = omega arith
byte_length-append (c ∷ s) t = omega (arith, byte_length-append s t)

and_three_last :
    (a b c d e f : Bool)
    → (a && b && c && d && e && f) ≡ true
    → (d ≡ true) × (e ≡ true) × (f ≡ true)
and_three_last a b c d e f h = (ground arith, ground arith, ground arith)

module _ (quote : Text → Text) where
  atom_len-write_atom :
      (text : Text) (string : Bool)
      → byte_length (write_atom quote text string) ≡ atom_len quote text string
  unfolding write_atom atom_len
  atom_len-write_atom text true = refl
  atom_len-write_atom text false = refl

  write_expr-atom :
      (text : Text) (string : Bool) (t : Trivia) (indent : ℕ)
      → byte_length (write_expr quote (atom text string t) indent format_inline)
        ≡ byte_length (write_atom quote text string)
  unfolding write_expr
  write_expr-atom text string t indent = refl

  -- A list that stays inline is written so.
  write_expr-inline :
      (xs : Exprs) (t : Trivia) (indent : ℕ)
      → should_inline quote (list xs t) ≡ true
      → write_expr quote (list xs t) indent format_inline ≡ open_paren ∷ inline_list quote xs
  unfolding write_expr writes_inline
  write_expr-inline xs t indent h = rw (write_expr, h) refl

  inline_list-cons :
      (x : Expr) (xs : Exprs)
      → inline_list quote (cons x xs) ≡ write_expr quote x 0 format_inline ++ inline_rest quote xs
  unfolding inline_list
  inline_list-cons x xs = refl

  inline_rest-cons :
      (x : Expr) (xs : Exprs)
      → inline_rest quote (cons x xs)
        ≡ space ∷ (write_expr quote x 0 format_inline ++ inline_rest quote xs)
  unfolding inline_rest
  inline_rest-cons x xs = refl

  byte_length-inline_nil :
      (byte_length (inline_list quote nil) ≡ 1) × (byte_length (inline_rest quote nil) ≡ 1)
  unfolding inline_list byte_length
  byte_length-inline_nil = (refl, refl)

  byte_length-paren : (s : Text) → byte_length (open_paren ∷ s) ≡ 1 + byte_length s
  unfolding byte_length
  byte_length-paren s = refl

  byte_length-space : (s : Text) → byte_length (space ∷ s) ≡ 1 + byte_length s
  unfolding byte_length
  byte_length-space s = refl

  -- What `shouldInline` requires of the elements, and of the length.
  should_inline-parts :
      (x : Expr) (xs : Exprs) (t : Trivia)
      → should_inline quote (list (cons x xs) t) ≡ true
      → (should_inline quote x ≡ true)
        × (all_inline quote xs ≡ true)
        × (leb (inline_len quote (list (cons x xs) t)) 88 ≡ true)
  unfolding should_inline
  should_inline-parts x xs t h =
      and_three_last (not (expr_inner_trivia (list (cons x xs) t))) (head_allows_inline (cons x xs))
        (leb (count (cons x xs)) 4) (should_inline quote x) (all_inline quote xs)
        (leb (inline_len quote (list (cons x xs) t)) 88) h

  all_inline-children :
      (x : Expr) (xs : Exprs)
      → all_inline quote (cons x xs) ≡ true
      → (should_inline quote x ≡ true) × (all_inline quote xs ≡ true)
  unfolding should_inline
  all_inline-children x xs h = (ground arith, ground arith)

  -- Inline is what `format_auto` chooses for such a list.
  write_expr-auto :
      (xs : Exprs) (t : Trivia) (indent : ℕ)
      → write_expr quote (list xs t) indent format_auto
        ≡ write_expr quote (list xs t) indent format_inline
  unfolding write_expr writes_inline
  write_expr-auto xs t indent = refl

  mutual
    unfolding inline_len

    inline_len-inline_list :
        (e : Expr) (indent : ℕ)
        → should_inline quote e ≡ true
        → byte_length (write_expr quote e indent format_inline) ≡ inline_len quote e
    inline_len-inline_list (atom text string t) indent h =
        write_expr-atom text string t indent ∙ atom_len-write_atom text string
    inline_len-inline_list (list nil t) indent h =
        rw (write_expr-inline nil t indent h)
          (omega (arith, byte_length-paren (inline_list quote nil), byte_length-inline_nil.0))
    inline_len-inline_list (list (cons x xs) t) indent h =
        let (a, b, short) = should_inline-parts x xs t h in
        let head = inline_len-inline_list x 0 a in
        let rest = rest_len-inline_rest xs b in
        rw (write_expr-inline (cons x xs) t indent h, inline_list-cons x xs)
          (omega (
            arith,
            byte_length-paren (write_expr quote x 0 format_inline ++ inline_rest quote xs),
            byte_length-append (write_expr quote x 0 format_inline) (inline_rest quote xs),
            head,
            rest,
          ))

    rest_len-inline_rest :
        (xs : Exprs)
        → all_inline quote xs ≡ true
        → byte_length (inline_rest quote xs) ≡ rest_len quote xs + 1
    rest_len-inline_rest nil h = byte_length-inline_nil.1
    rest_len-inline_rest (cons x xs) h =
        let (a, b) = all_inline-children x xs h in
        let head = inline_len-inline_list x 0 a in
        let rest = rest_len-inline_rest xs b in
        rw (inline_rest-cons x xs) (
          omega (
            arith,
            byte_length-space (write_expr quote x 0 format_inline ++ inline_rest quote xs),
            byte_length-append (write_expr quote x 0 format_inline) (inline_rest quote xs),
            head,
            rest,
          ))

  -- A list that `shouldInline` accepts and that has elements is written inline in exactly
  -- `inlineLen` bytes, at any indentation, and these are at most 88.
  pub inline_len-write_expr :
      (x : Expr) (xs : Exprs) (t : Trivia) (indent : ℕ)
      → should_inline quote (list (cons x xs) t) ≡ true
      → (byte_length (write_expr quote (list (cons x xs) t) indent format_auto)
          ≡ inline_len quote (list (cons x xs) t))
        × (byte_length (write_expr quote (list (cons x xs) t) indent format_auto) ≤ 88)
  inline_len-write_expr x xs t indent h =
      let same =
        ap byte_length (write_expr-auto (cons x xs) t indent)
        ∙ inline_len-inline_list (list (cons x xs) t) indent h in
      let (a, b, short) = should_inline-parts x xs t h in
      (same, rw same (leb→le (inline_len quote (list (cons x xs) t)) 88 short))
