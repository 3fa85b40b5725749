-- ===== src/Sexp/Layout/Rounds.antt =====
-- One round of the loops of internal/gesssexp/parser.go, on each piece of a layout.
use gess.Prelude.{
  true, Option, List, [], ◌∷◌, ◌++◌, ℕ, suc, ◌<◌, ◌≡◌, refl, ◌∙◌, ap, arith, Text, length,
}
use gess.Sexp.Syntax.{
  Span, Outcome, done, ◌>>=◌, Expr, Exprs, nil, cons, append, Token, comment_token, Position,
}
use gess.Sexp.Lexer.{next_token, token}
use gess.Sexp.Parser.{
  Parser, expr, list_loop, file_loop, comment_step, element_step, snoc, with_leading,
  attach_comment, lexed,
}
use gess.Sexp.Layout.{
  bare, bare_all, is_word, apart, Ending, in_list, in_file, Reads, word, quoted, parens,
}
use gess.Sexp.Layout.Words.{Quotes}
use gess.Sexp.Layout.Tokens.{next_token-open, next_token-word, next_token-quoted}
use gess.Sexp.Layout.Bare.{append-append, bare_all-append, bare_all-attach_comment}
use gess.Sexp.Layout.Loops.{
  fresh, is_opening, next-fresh, expr-unread, IsLoop, list_loop-IsLoop, file_loop-IsLoop,
}

abbrev pub ending_text : Ending → Text
ending_text in_list = b')' ∷ []
ending_text in_file = []

pub apart-append : (t s : Text) → apart t ≡ true → apart s ≡ true → apart (t ++ s) ≡ true
unfolding apart
apart-append [] s a b = b
apart-append (c ∷ t) s a b = a

pub is_word-pos : (t : Text) → is_word t ≡ true → 0 < length t
unfolding is_word
is_word-pos [] h = cc
is_word-pos (c ∷ t) h = omega arith

-- The two loops as one family.
pub data LoopKind : Type 0 where
  elements : Span → LoopKind
  whole_file : LoopKind

abbrev pub LoopResult : LoopKind → Type 0
LoopResult (elements start) = Expr × Parser
LoopResult whole_file = Exprs × List Text

abbrev pub loop :
    (Text → Option (ℕ × Text))
    → Text
    → (l : LoopKind) → ℕ
    → Exprs
    → List Text
    → Parser
    → Outcome (LoopResult l)
loop unquote_char name (elements start) f xs pending p =
    list_loop unquote_char name f start xs pending p
loop unquote_char name whole_file f xs pending p = file_loop unquote_char name f xs pending p

pub loop_lem :
    (unquote_char : Text → Option (ℕ × Text)) (name : Text) (l : LoopKind)
    → IsLoop unquote_char name (loop unquote_char name l)
loop_lem unquote_char name (elements start) = list_loop-IsLoop unquote_char name start
loop_lem unquote_char name whole_file = file_loop-IsLoop unquote_char name

-- One round of a loop on an element, and one on a comment.
pub loop_element :
    {A : Type 0} {unquote_char : Text → Option (ℕ × Text)} {name : Text}
    (loop : ℕ → Exprs → List Text → Parser → Outcome A)
    → IsLoop unquote_char name loop
    → (f : ℕ) (acc : Exprs) (pending : List Text) (s r t : Text) (p at end : Position) (tok : Token)
      (e : Expr)
    → next_token unquote_char name s p ≡ done (tok, r, at)
    → is_opening tok.kind ≡ true
    → expr unquote_char name f (fresh s p) ≡ done (e, fresh t end)
    → loop (suc f) acc pending (fresh s p)
      ≡ loop f (snoc acc (with_leading e pending)) [] (fresh t end)
unfolding element_step lexed
loop_element {unquote_char} {name} loop law f acc pending s r t p at end tok e h k read =
    let first = next-fresh unquote_char name s p h in
    law.takes_element f acc pending (fresh s p) (fresh r at) tok first k
    ∙ ap (λ o. o >>= λ (x, q). loop f (snoc acc (with_leading x pending)) [] q)
        (expr-unread unquote_char name f (fresh s p) tok r at first ∙ read)

pub loop_comment :
    {A : Type 0} {unquote_char : Text → Option (ℕ × Text)} {name : Text}
    (loop : ℕ → Exprs → List Text → Parser → Outcome A)
    → IsLoop unquote_char name loop
    → (f : ℕ) (acc : Exprs) (pending : List Text) (s r : Text) (p at : Position) (tok : Token)
    → next_token unquote_char name s p ≡ done (tok, r, at)
    → tok.kind ≡ comment_token
    → loop (suc f) acc pending (fresh s p)
      ≡ loop f (attach_comment tok acc pending).0 (attach_comment tok acc pending).1 (fresh r at)
unfolding comment_step lexed
loop_comment {unquote_char} {name} loop law f acc pending s r p at tok h k =
    law.takes_comment f acc pending (fresh s p) (fresh r at) tok
      (next-fresh unquote_char name s p h) k

pub append-attach_comment :
    (tok : Token) (acc : Exprs) (pending : List Text) (xs : Exprs)
    → append (bare_all (attach_comment tok acc pending).0) xs ≡ append (bare_all acc) xs
append-attach_comment tok acc pending xs =
    ap (λ ys. append ys xs) (bare_all-attach_comment tok acc pending)

pub bare_all-snoc :
    (acc : Exprs) (e x : Expr)
    → bare e ≡ x
    → (xs : Exprs) → append (bare_all (snoc acc e)) xs ≡ append (bare_all acc) (cons x xs)
unfolding snoc bare append
bare_all-snoc acc e x h xs =
    ap (λ ys. append ys xs) (bare_all-append acc (cons e nil))
    ∙ append-append (bare_all acc) (cons (bare e) nil) xs
    ∙ ap (λ y. append (bare_all acc) (cons y xs)) h

module _ {quote : Text → Text} {unquote_char : Text → Option (ℕ × Text)}
    (quotes : Quotes quote unquote_char) (name : Text) where
  pub Reads-pos : {w : Text} {x : Expr} {cs : List Text} → Reads quote w x cs → 0 < length w
  unfolding is_word
  Reads-pos (word t h) = is_word-pos t h
  Reads-pos (quoted t) = rw (quotes.quote_lem t) (omega arith)
  Reads-pos (parens s lay) = omega arith

  -- The first token of an expression opens one.
  pub Reads-token :
      {w : Text} {x : Expr} {cs : List Text}
      → Reads quote w x cs
      → (s : Text) (p : Position) → apart s ≡ true
      → (tok : Token) × (r : Text) × (at : Position) × (next_token unquote_char name (w ++ s) p
          ≡ done (tok, r, at))
        × (is_opening tok.kind ≡ true)
  unfolding token
  Reads-token (word t h) s p a =
      let (at, e) = next_token-word unquote_char name t s p h a in (_, s, at, e, refl)
  Reads-token (quoted t) s p a =
      let (at, e) = next_token-quoted unquote_char name quotes t s p in (_, s, at, e, refl)
  Reads-token (parens s lay) after p a =
      let (at, e) = next_token-open unquote_char name (s ++ after) p in (_, s ++ after, at, e, refl)
