-- ===== src/Sexp/Format.antt =====
-- The tests and the small writers of the formatter of internal/gesssexp/format.go: a text for what each function appends to the buffer.
-- `quote` is `strconv.Quote`. `byte_length` is Go's `len` of a string in UTF-8.
pub mod Write
use gess.Prelude.{
  if◌then◌else◌, leb, ltb, Bool, true, false, not, ◌&&◌, ◌||◌, List, [], ◌∷◌, ◌++◌, ℕ, zero, suc,
  ◌+◌, ◌==◌, nat_eq, list_eq, list_beq, Text, codes, length,
}
use gess.Sexp.Syntax.{
  Outcome, ◌>>=◌, done, Trivia, Expr, Exprs, atom, list, nil, cons, is_atom, trivia, text_of,
  head_text, count, newline,
}
use gess.Sexp.Parser.{is_empty}

abbrev pub open_paren : ℕ
open_paren = b'('

abbrev pub close_paren : ℕ
close_paren = b')'

abbrev pub space : ℕ
space = 0x20

abbrev pub indent_width : ℕ
indent_width = 2

pub data FormatMode : Type 0 where
  format_auto format_expanded format_inline : FormatMode

unfoldable pub write_indent : ℕ → Text
write_indent zero = []
write_indent (suc n) = space ∷ write_indent n

unfoldable pub utf8_length : ℕ → ℕ
utf8_length c = if ltb c 0x80 then 1 else if ltb c 0x800 then 2 else if ltb c 0x10000 then 3 else 4

unfoldable pub byte_length : Text → ℕ
unfolding utf8_length
byte_length [] = 0
byte_length (c ∷ s) = utf8_length c + byte_length s

unfoldable pub is_trivia_free : Trivia → Bool
is_trivia_free t = is_empty t.leading && is_empty t.trailing

unfoldable pub expr_trivia_free : Expr → Bool
unfolding is_trivia_free trivia
expr_trivia_free e = is_trivia_free (trivia e)

-- Whether writing inline would lose comments inside.
unfoldable mutual
  unfolding expr_trivia_free

  pub expr_inner_trivia : Expr → Bool
  expr_inner_trivia (atom text string t) = not (is_empty t.dangling)
  expr_inner_trivia (list xs t) = not (is_empty t.dangling) || any_trivia xs

  pub any_trivia : Exprs → Bool
  any_trivia nil = false
  any_trivia (cons x xs) = not (expr_trivia_free x) || expr_inner_trivia x || any_trivia xs

-- The heads that the layout treats apart.
unfoldable pub is_assert : Text → Bool
unfolding list_beq
is_assert name = name == codes "assert" || name == codes "assert-logical"

-- A `return` stays inline only with one atom.
unfoldable pub may_return_inline : Exprs → Bool
unfolding is_atom
may_return_inline (cons h (cons x nil)) = is_atom x
may_return_inline xs = false

unfoldable pub head_allows_inline : Exprs → Bool
unfolding is_assert list_beq head_text may_return_inline
head_allows_inline xs =
    if is_assert (head_text xs)
    then false
    else if head_text xs == codes "return"
    then may_return_inline xs
    else true

-- The two comment lines above and below a child, and a comment at the end of its line.
unfoldable pub comment_lines : ℕ → List Text → Text
unfolding write_indent
comment_lines indent [] = []
comment_lines indent (c ∷ cs) = write_indent indent ++ (c ++ newline ∷ comment_lines indent cs)

unfoldable pub write_trailing : Text → Text
write_trailing comment = if is_empty comment then [] else space ∷ comment

-- `writeChildLine`, with what `writeExpr` writes of the child.
unfoldable pub child_line : Trivia → ℕ → Text → Text
unfolding comment_lines write_indent write_trailing
child_line t indent written =
    newline
    ∷ (comment_lines indent t.leading
        ++ (write_indent indent ++ (written ++ write_trailing t.trailing)))

unfoldable pub dangling_lines : ℕ → List Text → Text
unfolding write_indent
dangling_lines indent [] = []
dangling_lines indent (c ∷ cs) =
    newline ∷ (write_indent (indent + indent_width) ++ (c ++ dangling_lines indent cs))

unfoldable pub dangling_and_close : List Text → ℕ → Text
unfolding dangling_lines write_indent
dangling_and_close comments indent =
    dangling_lines indent comments ++ newline ∷ (write_indent indent ++ close_paren ∷ [])

-- `canWriteBindingPattern` with the tests of its use: the three children carry no comments.
unfoldable pub can_write_binding_pattern : Expr → Expr → Expr → Bool
unfolding is_atom text_of list_beq expr_trivia_free
can_write_binding_pattern x arrow (atom text string t) = false
can_write_binding_pattern x arrow (list nil t) = false
can_write_binding_pattern x arrow (list (cons h kids) t) =
    is_atom x
    && is_atom arrow
    && text_of arrow == codes "<-"
    && is_atom h
    && expr_trivia_free x
    && expr_trivia_free arrow
    && is_trivia_free t

-- `canAttachNestedHead` with the tests of its use, for the children after the head from `index` on.
unfoldable pub can_attach_nested_head : Expr → ℕ → Exprs → Bool
unfolding is_atom text_of is_assert expr_inner_trivia is_trivia_free
can_attach_nested_head h index (cons (list (cons inner kids) t) nil) =
    index == 1
    && is_atom h
    && is_assert (text_of h)
    && is_atom inner
    && is_trivia_free t
    && not (expr_inner_trivia (list (cons inner kids) t))
can_attach_nested_head h index xs = false

module _ (quote : Text → Text) where
  unfoldable pub write_atom : Text → Bool → Text
  write_atom text string = if string then quote text else text

  unfoldable pub atom_len : Text → Bool → ℕ
  unfolding byte_length
  atom_len text string = if string then byte_length (quote text) else byte_length text

  unfoldable mutual
    unfolding atom_len

    pub inline_len : Expr → ℕ
    inline_len (atom text string t) = atom_len text string
    inline_len (list nil t) = 2
    inline_len (list (cons x xs) t) = 2 + (inline_len x + rest_len xs)

    -- The later elements, each with a space before it.
    pub rest_len : Exprs → ℕ
    rest_len nil = 0
    rest_len (cons x xs) = 1 + (inline_len x + rest_len xs)

  unfoldable mutual
    unfolding expr_inner_trivia head_allows_inline count inline_len

    pub should_inline : Expr → Bool
    should_inline (atom text string t) = true
    should_inline (list nil t) = not (expr_inner_trivia (list nil t))
    should_inline (list (cons x xs) t) =
        not (expr_inner_trivia (list (cons x xs) t))
        && head_allows_inline (cons x xs)
        && leb (count (cons x xs)) 4
        && should_inline x
        && all_inline xs
        && leb (inline_len (list (cons x xs) t)) 88

    pub all_inline : Exprs → Bool
    all_inline nil = true
    all_inline (cons x xs) = should_inline x && all_inline xs
