-- ===== src/Sexp/Layout/Pieces.antt =====
-- The texts that the small writers of internal/gesssexp/format.go add to a layout.
use gess.Prelude.{
  true, false, ◌||◌, List, [], ◌∷◌, ◌++◌, ℕ, zero, suc, ◌+◌, nat_eq, list_eq, ◌≡◌, refl, sym, ap,
  subst, ◌∙◌, append_assoc, arith, Text, codes, is_space,
}
use gess.Sexp.Syntax.{Trivia, Expr, Exprs, atom, nil, cons, newline, is_delimiter}
use gess.Sexp.Parser.{is_empty}
use gess.Sexp.Format.{
  space, indent_width, write_indent, comment_lines, write_trailing, child_line, dangling_lines,
  dangling_and_close, close_paren,
}
use gess.Sexp.Lexer.{trim_blanks}
use gess.Sexp.Layout.Formed.{is_comment-parts, is_comment, all_comments, trivia_formed}
use gess.Sexp.Layout.{
  trailing_comments, blank, is_newline, is_word, apart, breaks, Ending, in_list, Reads, word,
  Layout, close, spaced, commented, child,
}

newline-is_delimiter : is_delimiter newline ≡ true
unfolding is_delimiter is_space
newline-is_delimiter = refl

pub newline-is_space : is_space newline ≡ true
unfolding is_space
newline-is_space = refl

pub space-is_space : is_space space ≡ true
unfolding is_space
space-is_space = refl

regroup_three : (a b c s : Text) → a ++ (b ++ (c ++ s)) ≡ (a ++ (b ++ c)) ++ s
regroup_three a b c s = simp append_assoc

pub regroup_four : (a b c d s : Text) → a ++ (b ++ (c ++ (d ++ s))) ≡ (a ++ (b ++ (c ++ d))) ++ s
regroup_four a b c d s = simp append_assoc

newline_delimits : (c : ℕ) → is_newline c ≡ true → is_delimiter c ≡ true
newline_delimits c b =
    let same : c ≡ newline = ground arith in ap is_delimiter same ∙ newline-is_delimiter

pub apart_of_breaks : (s : Text) → breaks s ≡ true → apart s ≡ true
unfolding apart breaks
apart_of_breaks [] b = cc
apart_of_breaks (c ∷ s) b = newline_delimits c b

pub breaks-append : (t s : Text) → breaks t ≡ true → breaks (t ++ s) ≡ true
unfolding breaks
breaks-append [] s b = cc
breaks-append (c ∷ t) s b = b

pub write_trailing-apart : (c s : Text) → breaks s ≡ true → apart (write_trailing c ++ s) ≡ true
unfolding write_trailing apart is_space
write_trailing-apart [] s b = apart_of_breaks s b
write_trailing-apart (d ∷ c) s b = refl

module _ {quote : Text → Text} {ending : Ending} where
  -- On a layout's text, whatever the association.
  pub regroup :
      {xs : Exprs} {cs : List Text} (t u : Text)
      → t ≡ u
      → Layout quote ending t xs cs
      → Layout quote ending u xs cs
  regroup {xs} {cs} t u e lay = subst (λ s. Layout quote ending s xs cs) e lay

  -- On a layout's comments.
  pub recount :
      {s : Text} {xs : Exprs} (cs ds : List Text)
      → cs ≡ ds
      → Layout quote ending s xs cs
      → Layout quote ending s xs ds
  recount {s} {xs} cs ds e lay = subst (λ bs. Layout quote ending s xs bs) e lay

  pub write_indent-Layout :
      {s : Text} {xs : Exprs} {cs : List Text} (n : ℕ)
      → Layout quote ending s xs cs
      → Layout quote ending (write_indent n ++ s) xs cs
  unfolding write_indent
  write_indent-Layout zero lay = lay
  write_indent-Layout {s} (suc n) lay =
      spaced space (write_indent n ++ s) space-is_space (write_indent-Layout n lay)

  pub comment-Layout :
      {s : Text} {xs : Exprs} {ds : List Text} (c : Text)
      → is_comment c ≡ true
      → breaks s ≡ true
      → Layout quote ending s xs ds
      → Layout quote ending (c ++ s) xs (c ∷ ds)
  unfolding is_comment
  comment-Layout [] h b lay = cc
  comment-Layout {s} {xs} {ds} (d ∷ c) h b lay =
      let (semicolon, on_line, trimmed) = is_comment-parts d c h in
      recount (trim_blanks (d ∷ c) ∷ ds) ((d ∷ c) ∷ ds) (ap (λ t. t ∷ ds) trimmed) (
        subst (λ a. Layout quote ending (a ∷ (c ++ s)) xs (trim_blanks (a ∷ c) ∷ ds))
          (sym semicolon) (commented c s on_line b lay))

  pub comment_lines-Layout :
      {s : Text} {xs : Exprs} {ds : List Text} (n : ℕ) (cs : List Text)
      → all_comments cs ≡ true
      → Layout quote ending s xs ds
      → Layout quote ending (comment_lines n cs ++ s) xs (cs ++ ds)
  unfolding comment_lines all_comments breaks
  comment_lines-Layout n [] h lay = lay
  comment_lines-Layout {s} n (c ∷ cs) h lay =
      let rest = comment_lines n cs in
      regroup (write_indent n ++ (c ++ newline ∷ (rest ++ s))) _
        (regroup_three (write_indent n) c (newline ∷ rest) s)
        (write_indent-Layout n (
          comment-Layout c (ground arith) refl (
            spaced newline (rest ++ s) newline-is_space
              (comment_lines-Layout n cs (ground arith) lay))))

  pub write_trailing-Layout :
      {s : Text} {xs : Exprs} {ds : List Text} (c : Text)
      → (is_empty c || is_comment c) ≡ true
      → breaks s ≡ true
      → Layout quote ending s xs ds
      → Layout quote ending (write_trailing c ++ s) xs (trailing_comments c ++ ds)
  unfolding write_trailing trailing_comments
  write_trailing-Layout [] h b lay = lay
  write_trailing-Layout {s} (d ∷ c) h b lay =
      spaced space ((d ∷ c) ++ s) space-is_space (comment-Layout (d ∷ c) h b lay)

  -- A child on lines of its own.
  pub child_line-Layout :
      {s w : Text} {x : Expr} {xs : Exprs} {cs ds : List Text} (t : Trivia) (n : ℕ)
      → trivia_formed t ≡ true
      → Reads quote w x cs
      → breaks s ≡ true
      → Layout quote ending s xs ds
      → Layout quote ending
          (child_line t n w ++ s)
          (cons x xs)
          (t.leading ++ (cs ++ (trailing_comments t.trailing ++ ds)))
  unfolding child_line trivia_formed
  child_line-Layout {s} {w} t n h rd b lay =
      let lead = comment_lines n t.leading in
      let trail = write_trailing t.trailing in
      regroup (newline ∷ (lead ++ (write_indent n ++ (w ++ (trail ++ s))))) _
        (ap (◌∷◌ newline) (regroup_four lead (write_indent n) w trail s))
        (spaced newline _ newline-is_space (
          comment_lines-Layout n t.leading (ground arith) (
            write_indent-Layout n (
              child w (trail ++ s) rd (write_trailing-apart t.trailing s b)
                (write_trailing-Layout t.trailing (ground arith) b lay)))))

  -- A binding, its arrow and its pattern on one line.
  pub binding_line-Layout :
      {s v w : Text} {x y : Expr} {xs : Exprs} {bs cs ds : List Text} (n : ℕ)
      → Reads quote v x bs
      → Reads quote w y cs
      → apart s ≡ true
      → Layout quote ending s xs ds
      → Layout quote ending
          ((newline ∷ (write_indent n ++ (v ++ (codes " <- " ++ w)))) ++ s)
          (cons x (cons (atom (codes "<-") false blank) (cons y xs)))
          (bs ++ (cs ++ ds))
  unfolding apart is_word is_space
  binding_line-Layout {s} {v} {w} n rv ry a lay =
      regroup (newline ∷ (write_indent n ++ (v ++ (codes " <- " ++ (w ++ s))))) _
        (ap (◌∷◌ newline) (regroup_four (write_indent n) v (codes " <- ") w s))
        (spaced newline _ newline-is_space (
          write_indent-Layout n (
            child v (codes " <- " ++ (w ++ s)) rv refl (
              spaced space _ space-is_space (
                child (codes "<-") (space ∷ (w ++ s)) (word (codes "<-") refl) refl
                  (spaced space _ space-is_space (child w s ry a lay)))))))

-- The comments before a closing parenthesis, and the parenthesis.
module _ {quote : Text → Text} where
  pub close_line-Layout :
      (n : ℕ) → Layout quote in_list (newline ∷ (write_indent n ++ close_paren ∷ [])) nil []
  close_line-Layout n = spaced newline _ newline-is_space (write_indent-Layout n close)

  dangling_lines-Layout :
      {s : Text} (n : ℕ) (cs : List Text)
      → all_comments cs ≡ true
      → breaks s ≡ true
      → Layout quote in_list s nil []
      → (breaks (dangling_lines n cs ++ s) ≡ true)
        × Layout quote in_list (dangling_lines n cs ++ s) nil cs
  unfolding dangling_lines all_comments breaks
  dangling_lines-Layout n [] h b lay = (b, lay)
  dangling_lines-Layout {s} n (c ∷ cs) h b lay =
      let rest = dangling_lines-Layout n cs (ground arith) b lay in
      (
        refl,
        regroup (newline ∷ (write_indent (n + indent_width) ++ (c ++ (dangling_lines n cs ++ s)))) _
            (ap (◌∷◌ newline)
              (regroup_three (write_indent (n + indent_width)) c (dangling_lines n cs) s))
            (spaced newline _ newline-is_space (
              write_indent-Layout (n + indent_width)
                (comment-Layout c (ground arith) rest.0 rest.1))),
      )

  pub dangling_and_close-Layout :
      (cs : List Text) (n : ℕ)
      → all_comments cs ≡ true
      → (breaks (dangling_and_close cs n) ≡ true)
        × Layout quote in_list (dangling_and_close cs n) nil cs
  unfolding dangling_and_close breaks
  dangling_and_close-Layout cs n h = dangling_lines-Layout n cs h refl (close_line-Layout n)
