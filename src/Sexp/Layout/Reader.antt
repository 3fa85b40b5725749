-- ===== src/Sexp/Layout/Reader.antt =====
-- The parser of internal/gesssexp/parser.go on a layout.
use gess.Prelude.{
  true, Option, List, [], ◌∷◌, ◌++◌, ℕ, zero, suc, ◌+◌, ◌*◌, ◌<◌, ◌≤◌, ◌≡◌, refl, sym, ◌∙◌, ap,
  append_assoc, append-nil, arith, Text, length, length-append,
}
use gess.Sexp.Syntax.{
  trivia, done, Expr, Exprs, list, nil, append, lparen_token, comment_token, Position, advance,
}
use gess.Sexp.Lexer.{token, trim_blanks}
use gess.Sexp.Parser.{
  expr, expr_from, file_loop, snoc, with_leading, attach_comment, parse_all, lexed,
}
use gess.Sexp.Layout.{
  inner_comments, comments, bare, bare_all, blank, apart, Ending, in_file, Reads, word, quoted,
  parens, Layout, close, eof, spaced, commented, child,
}
use gess.Sexp.Layout.Words.{Quotes}
use gess.Sexp.Layout.Tokens.{
  next_token-space, next_token-open, next_token-comment, next_token-word, next_token-quoted,
}
use gess.Sexp.Layout.Lexed.{is_empty-trim_blanks}
use gess.Sexp.Layout.Comments.{comments-element, comments-attach_comment}
use gess.Sexp.Layout.Bare.{append_nil, bare-with_leading}
use gess.Sexp.Layout.Loops.{fresh, next-skips, expr-fresh, list_loop-close, file_loop-eof}
use gess.Sexp.Layout.Pieces.{breaks-append}
use gess.Sexp.Layout.Rounds.{
  ending_text, apart-append, LoopKind, elements, whole_file, loop, loop_lem, loop_element,
  loop_comment, append-attach_comment, bare_all-snoc, Reads-pos, Reads-token,
}

module _ {quote : Text → Text} {unquote_char : Text → Option (ℕ × Text)}
    (quotes : Quotes quote unquote_char) (name : Text) where
  -- What a loop comes to behind a layout: the text that ends it, with the expressions added.
  abbrev Reaches : LoopKind → Ending → Text → Exprs → List Text → Type 0
  Reaches l ending t xs cs =
      (f : ℕ) (acc : Exprs) (pending : List Text) (s : Text) (p : Position)
      → 2 * length t < f
      → apart s ≡ true
      → (g : ℕ) × (ys : Exprs) × (waiting : List Text) × (at : Position) × (loop unquote_char name l
            f acc pending (fresh (t ++ s) p)
          ≡ loop unquote_char name l (suc g) ys waiting (fresh (ending_text ending ++ s) at))
        × (bare_all ys ≡ append (bare_all acc) xs)
        × (comments ys ++ waiting ≡ (comments acc ++ pending) ++ cs)

  abbrev ReadsAs : Text → Expr → List Text → Type 0
  ReadsAs w x cs =
      (f : ℕ) (s : Text) (p : Position)
      → 2 * length w ≤ suc f
      → apart s ≡ true
      → (e : Expr) × (at : Position) × (expr unquote_char name (suc f) (fresh (w ++ s) p)
          ≡ done (e, fresh s at))
        × (bare e ≡ x)
        × (inner_comments e ≡ cs)
        × ((trivia e).trailing ≡ [])

  mutual
    unfolding bare snoc append token lexed expr_from inner_comments trivia

    expr-ReadsAs : {w : Text} {x : Expr} {cs : List Text} → Reads quote w x cs → ReadsAs w x cs
    expr-ReadsAs (word t h) f s p fuel a =
        let (at, e) = next_token-word unquote_char name t s p h a in
        (_, at, expr-fresh unquote_char name f (t ++ s) s p at _ e, refl, refl, refl)
    expr-ReadsAs (quoted t) f s p fuel a =
        let (at, e) = next_token-quoted unquote_char name quotes t s p in
        (_, at, expr-fresh unquote_char name f (quote t ++ s) s p at _ e, refl, refl, refl)
    expr-ReadsAs (parens s lay) f after p fuel a =
        let (at, opened) = next_token-open unquote_char name (s ++ after) p in
        let start = (token unquote_char name lparen_token (b'(' ∷ []) p at).span in
        let (g, ys, waiting, end, e, b, kept) =
          Layout-Reaches (elements start) lay f nil [] after at (omega arith) a in
        let (x, last, closed, same, inner, none_behind) =
          list_loop-close unquote_char name g start ys waiting after end in
        (
          x,
          last,
          expr-fresh unquote_char name f (b'(' ∷ (s ++ after)) (s ++ after) p at _ opened
              ∙ e
              ∙ closed,
          same ∙ ap (λ xs. list xs blank) b,
          inner ∙ kept,
          none_behind,
        )

    Layout-Reaches :
        {ending : Ending} {t : Text} {xs : Exprs} {cs : List Text} (l : LoopKind)
        → Layout quote ending t xs cs
        → Reaches l ending t xs cs
    Layout-Reaches l lay zero acc pending s p fuel a = absurd (omega arith)
    Layout-Reaches l close (suc f) acc pending s p fuel a = (
      f,
      acc,
      pending,
      p,
      refl,
      sym (append_nil (bare_all acc)),
      sym (append-nil (comments acc ++ pending)),
    )
    Layout-Reaches l eof (suc f) acc pending s p fuel a = (
      f,
      acc,
      pending,
      p,
      refl,
      sym (append_nil (bare_all acc)),
      sym (append-nil (comments acc ++ pending)),
    )
    Layout-Reaches l (spaced c s h lay) (suc f) acc pending after p fuel a =
        let (g, ys, waiting, at, e, b, kept) =
          Layout-Reaches l lay (suc f) acc pending after (advance c p) (omega arith) a in
        (
          g,
          ys,
          waiting,
          at,
          (loop_lem unquote_char name l).skips (suc f) acc pending _ _ (
                next-skips unquote_char name _ _ _ _
                  (next_token-space unquote_char name c (s ++ after) p h))
              ∙ e,
          b,
          kept,
        )
    Layout-Reaches l (commented c s h b lay) (suc f) acc pending after p fuel a =
        let (at, read) =
          next_token-comment unquote_char name c (s ++ after) p h (breaks-append s after b) in
        let tok = token unquote_char name comment_token (trim_blanks (b';' ∷ c)) p at in
        let attached = attach_comment tok acc pending in
        let (g, ys, waiting, end, e, same, kept) =
          Layout-Reaches l lay f attached.0 attached.1 after at (omega (arith, length-append c s))
            a in
        (
          g,
          ys,
          waiting,
          end,
          ap (λ u. loop unquote_char name l (suc f) acc pending (fresh (b';' ∷ u) p))
                (append_assoc c s after)
              ∙ loop_comment (loop unquote_char name l) (loop_lem unquote_char name l) f acc pending
                  _ _ p at tok read refl
              ∙ e,
          same ∙ append-attach_comment tok acc pending _,
          kept ∙ comments-attach_comment tok acc pending _ (is_empty-trim_blanks c),
        )
    Layout-Reaches l (child w s rd b lay) (suc zero) acc pending after p fuel a =
        absurd (omega (arith, Reads-pos quotes name rd, length-append w s))
    Layout-Reaches l (child w s rd b lay) (suc (suc f)) acc pending after p fuel a =
        let apart_after = apart-append s after b a in
        let (tok, r, at, read, opening) = Reads-token quotes name rd (s ++ after) p apart_after in
        let (x, end, parsed, same, inner, none_behind) =
          expr-ReadsAs rd f (s ++ after) p (omega (arith, length-append w s)) apart_after in
        let (g, ys, waiting, last, e, all, kept) =
          Layout-Reaches l lay (suc f) (snoc acc (with_leading x pending)) [] after end
            (omega (arith, Reads-pos quotes name rd, length-append w s)) a in
        (
          g,
          ys,
          waiting,
          last,
          ap (λ u. loop unquote_char name l (suc (suc f)) acc pending (fresh u p))
                (append_assoc w s after)
              ∙ loop_element (loop unquote_char name l) (loop_lem unquote_char name l) (suc f) acc
                  pending _ r _ p at end tok x read opening parsed
              ∙ e,
          all ∙ bare_all-snoc acc _ _ (bare-with_leading x pending ∙ same) _,
          kept ∙ comments-element acc x pending _ _ none_behind inner,
        )

  -- Of a text that is a layout of expressions, however it is spaced and commented, the parser returns
  -- these expressions, comments and positions aside, and all the comments of the text, in their order and
  -- without the blanks at their ends, if `quote` and `unquote_char` agree as `Quotes` says.
  pub parse_all-Layout :
      {s : Text} {xs : Exprs} {cs : List Text}
      → Layout quote in_file s xs cs
      → (ys : Exprs) × (tail : List Text) × (parse_all unquote_char name s ≡ done (ys, tail))
        × (bare_all ys ≡ xs)
        × (comments ys ++ tail ≡ cs)
  unfolding parse_all append bare apart comments
  parse_all-Layout {s} lay =
      let first : Position = record { line = 1; col = 1 } in
      let (g, ys, waiting, at, e, b, kept) =
        Layout-Reaches whole_file lay (2 * length s + 3) nil [] [] first (omega arith) refl in
      (
        ys,
        waiting,
        ap (λ u. file_loop unquote_char name (2 * length s + 3) nil [] (fresh u first))
              (sym (append-nil s))
            ∙ e
            ∙ file_loop-eof unquote_char name g ys waiting at,
        b,
        kept,
      )
