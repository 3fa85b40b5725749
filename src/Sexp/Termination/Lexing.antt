-- ===== src/Sexp/Termination/Lexing.antt =====
-- How much of the input a token of `lexer.next` (internal/gesssexp/parser.go) takes.
use gess.Prelude.{
  true, false, Bool-cases, Option, some, Option-cases, [], ◌∷◌, ◌++◌, ℕ, zero, suc, ◌+◌, ◌-◌, ◌<◌,
  ◌≤◌, ◌==◌, nat_eq, ◌≡◌, inl, inr, arith, Text, length, take, drop, length-drop, is_space, subst,
  sym,
}
use gess.Sexp.Syntax.{
  Outcome, done, failed, out_of_fuel, ◌>>=◌, Token, TokenKind, eof_token, Position, advance,
  advance_all, is_delimiter,
}
use gess.Sexp.Lexer.{take_line, take_word, token, string_loop, lex_comment, lex_word, next_token}
use gess.Sexp.Layout.Tokens.{next_token-plain, no_delimiter}

-- An outcome that did not run out of fuel, and whose result has a property.
abbrev pub Total : {A : Type 0} → (A → Type 0) → Outcome A → Type 0
Total P (done a) = P a
Total P (failed e) = Unit
Total P out_of_fuel = ⊥

pub Total-bind :
    {A B : Type 0} (P : A → Type 0) (Q : B → Type 0) (m : Outcome A) (f : A → Outcome B)
    → Total P m
    → ((a : A) → P a → Total Q (f a))
    → Total Q (m >>= f)
Total-bind P Q (done a) f h k = k a h
Total-bind P Q (failed e) f h k = tt
Total-bind P Q out_of_fuel f h k = absurd h

-- The characters that a token takes, at least.
abbrev pub cost : TokenKind → ℕ
cost eof_token = 0
cost _ = 1

abbrev pub Takes : Text → Outcome (Token × Text × Position) → Type 0
Takes s r = Total (λ (tok, rest, at). length rest + cost tok.kind ≤ length s) r

length-take_line : (s : Text) (p : Position) → length (take_line s p).1 ≤ length s
unfolding take_line
length-take_line [] p = omega arith
length-take_line (r ∷ s) p = ground (arith, length-take_line s (advance r p))

length-take_word : (s : Text) (p : Position) → length (take_word s p).1 ≤ length s
unfolding take_word
length-take_word [] p = omega arith
length-take_word (r ∷ s) p = ground (arith, length-take_word s (advance r p))

Total-weaken :
    (s t : Text) (r : Outcome (Token × Text × Position))
    → length s ≤ length t
    → Takes s r
    → Takes t r
Total-weaken s t (done a) h k = omega arith
Total-weaken s t (failed e) h k = tt
Total-weaken s t out_of_fuel h k = absurd k

-- What `strconv.UnquoteChar` leaves is shorter than what it was given.
abbrev pub Shortens : (Text → Option (ℕ × Text)) → Type 0
Shortens unquote_char =
    (s rest : Text) (value : ℕ) → unquote_char s ≡ some (value, rest) → length rest < length s

module _ (unquote_char : Text → Option (ℕ × Text)) (shortens : Shortens unquote_char)
    (name : Text) where
  string_loop-total :
      (f : ℕ) (start : Position) (b s : Text) (p : Position)
      → length s < f
      → Takes s (string_loop unquote_char name f start b s p)
  unfolding string_loop token
  string_loop-total zero start b s p h = absurd (omega arith)
  string_loop-total (suc f) start b [] p h = tt
  string_loop-total (suc f) start b (r ∷ []) p h = elim (Bool-cases (r == b'"')) [
    | inl e ↦ rw (string_loop, e) (omega arith)
    | inr e ↦ elim (Bool-cases (r == b'\\')) [
      | inl k ↦ rw (string_loop, e, k) tt
      | inr k ↦
          rw (string_loop, e, k)
            (Total-weaken [] (r ∷ []) _ (omega arith)
              (string_loop-total f start (b ++ r ∷ []) [] (advance r p) (omega arith)))
    ]
  ]
  string_loop-total (suc f) start b (r ∷ (c ∷ cs)) p h = elim (Bool-cases (r == b'"')) [
    | inl e ↦ rw (string_loop, e) (omega arith)
    | inr e ↦ elim (Bool-cases (r == b'\\')) [
      | inr k ↦
          rw (string_loop, e, k)
            (Total-weaken (c ∷ cs) (r ∷ (c ∷ cs)) _ (omega arith)
              (string_loop-total f start (b ++ r ∷ []) (c ∷ cs) (advance r p) (omega arith)))
      | inl k ↦ elim (Option-cases (unquote_char (r ∷ (c ∷ cs)))) [
        | inl u ↦ rw (string_loop, e, k, u) tt
        | inr ((value, rest), u) ↦
            let tail = r ∷ (c ∷ cs) in
            let n = length tail - length rest in
            let left : length (drop n tail) < length tail =
              omega (arith, length-drop n tail, shortens tail rest value u) in
            rw (string_loop, e, k, u)
              (Total-weaken (drop n tail) tail _ (omega arith) (
                string_loop-total f start (b ++ value ∷ []) (drop n tail)
                  (advance_all (take n tail) p) (omega arith)))
      ]
    ]
  ]

  lex_comment-total :
      (r : ℕ) (s : Text) (start p : Position)
      → (r == b';') ≡ true
      → Takes (r ∷ s) (lex_comment unquote_char name start (take_line (r ∷ s) p))
  unfolding lex_comment token take_line
  lex_comment-total r s start p h =
      let same : b';' ≡ r = ground arith in
      subst (λ c. Takes (c ∷ s) (lex_comment unquote_char name start (take_line (c ∷ s) p))) same
        (omega (arith, length-take_line s (advance b';' p)))

  lex_word-total :
      (c : ℕ) (s : Text) (start p : Position)
      → is_delimiter c ≡ false
      → Takes (c ∷ s) (lex_word unquote_char name start (take_word (c ∷ s) p))
  unfolding lex_word token take_word
  lex_word-total c s start p d = rw (take_word, d) (omega (arith, length-take_word s (advance c p)))

  pub next_token-total : (s : Text) (p : Position) → Takes s (next_token unquote_char name s p)
  unfolding next_token
  next_token-total [] p = omega arith
  next_token-total (r ∷ s) p = elim (Bool-cases (is_space r)) [
    | inl a ↦
        rw (next_token, a)
          (Total-weaken s (r ∷ s) _ (omega arith) (next_token-total s (advance r p)))
    | inr a ↦ elim (Bool-cases (r == b';')) [
      | inl m ↦ rw (next_token, a, m) (lex_comment-total r s p p m)
      | inr m ↦ elim (Bool-cases (r == b'(')) [
        | inl o ↦ rw (next_token, a, m, o) (omega arith)
        | inr o ↦ elim (Bool-cases (r == b')')) [
          | inl l ↦ rw (next_token, a, m, o, l) (omega arith)
          | inr l ↦ elim (Bool-cases (r == b'"')) [
            | inl q ↦
                rw (next_token, a, m, o, l, q)
                  (Total-weaken s (r ∷ s) _ (omega arith)
                    (string_loop-total (suc (length s)) p [] s (advance b'"' p) (omega arith)))
            | inr q ↦
                let d = no_delimiter r a o l m in
                subst (λ t. Takes (r ∷ s) t) (sym (next_token-plain unquote_char name r s p d q))
                  (lex_word-total r s p p d)
          ]
        ]
      ]
    ]
  ]
