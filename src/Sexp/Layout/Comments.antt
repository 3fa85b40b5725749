-- ===== src/Sexp/Layout/Comments.antt =====
-- Where the reader puts the comments (`attachComment` of internal/gesssexp/parser.go): on the last
-- expression, or before the next.
use gess.Prelude.{
  true, false, Bool-cases, some, Option-cases, List, [], ◌∷◌, ◌++◌, ◌≡◌, refl, sym, ap, subst, ◌==◌,
  nat_eq, ◌∙◌, inl, inr, append_assoc, append-nil, Text,
}
use gess.Sexp.Syntax.{
  Expr, Exprs, atom, list, nil, cons, append, last_expr, set_last, trivia, Token,
}
use gess.Sexp.Parser.{is_empty, with_leading, with_trailing, attach_comment, snoc}
use gess.Sexp.Layout.{inner_comments, comments, trailing_comments}

pub regroup_comments :
    (a b c d e : List Text) → a ++ (b ++ (c ++ (d ++ e))) ≡ (a ++ (b ++ (c ++ d))) ++ e
regroup_comments a b c d e = simp append_assoc

pub no_comments : (cs : List Text) → is_empty cs ≡ true → cs ≡ []
no_comments [] h = refl
no_comments (c ∷ cs) h = cc

comments-append : (xs ys : Exprs) → comments (append xs ys) ≡ comments xs ++ comments ys
unfolding comments append
comments-append nil ys = refl
comments-append (cons x xs) ys = rw (comments-append xs ys) (simp append_assoc)

none_of_empty : (s : Text) → s ≡ [] → trailing_comments s ≡ []
unfolding trailing_comments
none_of_empty s h = rw h refl

empty_of_is_empty : (s : Text) → is_empty s ≡ true → s ≡ []
empty_of_is_empty [] h = refl
empty_of_is_empty (c ∷ s) h = cc

comments-with_leading :
    (e : Expr) (pending : List Text)
    → (trivia e).trailing ≡ []
    → comments (cons (with_leading e pending) nil) ≡ pending ++ inner_comments e
unfolding comments with_leading
comments-with_leading (atom text string t) pending h =
    rw (none_of_empty t.trailing h) (simp append-nil)
comments-with_leading (list xs t) pending h = rw (none_of_empty t.trailing h) (simp append-nil)

one_comment : (c : Text) → is_empty c ≡ false → trailing_comments c ≡ c ∷ []
unfolding trailing_comments
one_comment [] n = cc
one_comment (d ∷ c) n = refl

comments-with_trailing :
    (e : Expr) (c : Text)
    → (trivia e).trailing ≡ []
    → is_empty c ≡ false
    → comments (cons (with_trailing e c) nil) ≡ comments (cons e nil) ++ c ∷ []
unfolding comments with_trailing
comments-with_trailing (atom text string t) c h n =
    rw (none_of_empty t.trailing h, one_comment c n) (simp append-nil)
comments-with_trailing (list xs t) c h n =
    rw (none_of_empty t.trailing h, one_comment c n) (simp (append-nil, append_assoc))

comments-snoc :
    (acc : Exprs) (e : Expr) (pending cs : List Text)
    → (trivia e).trailing ≡ []
    → inner_comments e ≡ cs
    → comments (snoc acc (with_leading e pending)) ++ [] ≡ (comments acc ++ pending) ++ cs
unfolding snoc
comments-snoc acc e pending cs h k =
    append-nil (comments (append acc (cons (with_leading e pending) nil)))
    ∙ comments-append acc (cons (with_leading e pending) nil)
    ∙ ap (λ ds. comments acc ++ ds) (comments-with_leading e pending h ∙ ap (λ ds. pending ++ ds) k)
    ∙ sym (append_assoc (comments acc) pending cs)

-- An expression that was read takes the comments that wait.
pub comments-element :
    (acc : Exprs) (e : Expr) (pending cs rest : List Text)
    → (trivia e).trailing ≡ []
    → inner_comments e ≡ cs
    → (comments (snoc acc (with_leading e pending)) ++ []) ++ rest
      ≡ (comments acc ++ pending) ++ (cs ++ rest)
comments-element acc e pending cs rest h k =
    ap (λ ds. ds ++ rest) (comments-snoc acc e pending cs h k)
    ∙ append_assoc (comments acc ++ pending) cs rest

comments-set_last :
    (xs : Exprs) (e : Expr) (c : Text)
    → last_expr xs ≡ some e
    → (trivia e).trailing ≡ []
    → is_empty c ≡ false
    → comments (set_last xs (with_trailing e c)) ≡ comments xs ++ c ∷ []
unfolding last_expr set_last append
comments-set_last nil e c l h n = cc
comments-set_last (cons y nil) e c l h n =
    let same : e ≡ y = cc in
    subst (λ z. comments (cons (with_trailing e c) nil) ≡ comments (cons z nil) ++ c ∷ []) same
      (comments-with_trailing e c h n)
comments-set_last (cons y (cons z zs)) e c l h n =
    comments-append (cons y nil) (set_last (cons z zs) (with_trailing e c))
    ∙ ap (λ ds. comments (cons y nil) ++ ds) (comments-set_last (cons z zs) e c l h n)
    ∙ sym (append_assoc (comments (cons y nil)) (comments (cons z zs)) (c ∷ []))
    ∙ ap (λ ds. ds ++ c ∷ []) (sym (comments-append (cons y nil) (cons z zs)))

comments-attach :
    (tok : Token) (xs : Exprs) (pending : List Text)
    → is_empty tok.text ≡ false
    → comments (attach_comment tok xs pending).0 ++ (attach_comment tok xs pending).1
      ≡ (comments xs ++ pending) ++ tok.text ∷ []
unfolding attach_comment
comments-attach tok xs pending n =
    let waits = sym (append_assoc (comments xs) pending (tok.text ∷ [])) in
    elim (Option-cases (last_expr xs)) [
      | inl e ↦ rw (attach_comment, e) waits
      | inr (x, e) ↦ elim (Bool-cases (is_empty pending)) [
        | inr a ↦ rw (attach_comment, e, a) waits
        | inl a ↦ elim (Bool-cases (is_empty (trivia x).trailing)) [
          | inr b ↦ rw (attach_comment, e, a, b) waits
          | inl b ↦ elim (Bool-cases (tok.span.start_line == (trivia x).span.end_line)) [
            | inr d ↦ rw (attach_comment, e, a, b, d) waits
            | inl d ↦
                let set =
                  comments-set_last xs x tok.text e (empty_of_is_empty (trivia x).trailing b) n in
                rw (attach_comment, e, a, b, d)
                  (rw (no_comments pending a) (
                    append-nil _
                    ∙ set
                    ∙ ap (λ ds. ds ++ tok.text ∷ []) (sym (append-nil (comments xs)))))
          ]
        ]
      ]
    ]

-- A comment that is read comes after those before it.
pub comments-attach_comment :
    (tok : Token) (xs : Exprs) (pending rest : List Text)
    → is_empty tok.text ≡ false
    → (comments (attach_comment tok xs pending).0 ++ (attach_comment tok xs pending).1) ++ rest
      ≡ (comments xs ++ pending) ++ (tok.text ∷ rest)
comments-attach_comment tok xs pending rest n =
    ap (λ ds. ds ++ rest) (comments-attach tok xs pending n)
    ∙ append_assoc (comments xs ++ pending) (tok.text ∷ []) rest
