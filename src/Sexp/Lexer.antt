-- ===== src/Sexp/Lexer.antt =====
-- The lexer of internal/gesssexp/parser.go. `unquote_char s` is `strconv.UnquoteChar(s, '"')`: the
-- character that an escape stands for and what follows it, or none for an error.
use gess.Prelude.{
  if◌then◌else◌, true, false, Option, none, some, [], ◌∷◌, ◌++◌, ℕ, zero, suc, ◌-◌, ◌==◌, ◌||◌,
  nat_eq, Text, is_space, length, take, drop, reverse,
}
use gess.Sexp.Syntax.{
  Outcome, done, failed, out_of_fuel, Token, TokenKind, eof_token, lparen_token, rparen_token,
  atom_token, string_token, comment_token, Position, newline, advance, advance_all, span_at,
  span_with_end, is_delimiter, unterminated_string, invalid_escape,
}

-- What a loop of the lexer has taken, the rest of the input, and the position there.
abbrev pub Run : Type 0
Run = Text × Text × Position

abbrev pub taking : ℕ → Run → Run
taking r (w, s, p) = (r ∷ w, s, p)

-- The loop of a comment: up to the end of its line.
unfoldable pub take_line : Text → Position → Run
take_line [] p = ([], [], p)
take_line (r ∷ s) p = if r == newline then ([], r ∷ s, p) else taking r (take_line s (advance r p))

-- The loop of a bare atom.
unfoldable pub take_word : Text → Position → Run
take_word [] p = ([], [], p)
take_word (r ∷ s) p =
    if is_delimiter r then ([], r ∷ s, p) else taking r (take_word s (advance r p))

-- `strings.TrimRight(s, " \t\r")`, of the text read backwards and of the text.
unfoldable pub drop_blanks : Text → Text
drop_blanks [] = []
drop_blanks (c ∷ s) = if c == 0x20 || c == 0x09 || c == 0x0d then drop_blanks s else c ∷ s

unfoldable pub trim_blanks : Text → Text
unfolding drop_blanks
trim_blanks s = reverse (drop_blanks (reverse s))

module _ (unquote_char : Text → Option (ℕ × Text)) (name : Text) where
  unfoldable pub token : TokenKind → Text → Position → Position → Token
  unfolding span_at span_with_end
  token kind text start end = record {
    kind = kind;
    text = text;
    span = span_with_end (span_at name start) (span_at name end);
  }

  -- The loop of `stringToken`, from behind the opening quote at `start`; `b` is what it has written.
  unfoldable pub string_loop :
      ℕ → Position → Text → Text → Position → Outcome (Token × Text × Position)
  unfolding token advance_all
  string_loop zero start b s p = out_of_fuel
  string_loop (suc f) start b [] p =
      failed (record { span = span_at name start; reason = unterminated_string })
  string_loop (suc f) start b (r ∷ s) p = elim (r == b'"') [
    | true ↦ done (token string_token b start (advance r p), s, advance r p)
    | false ↦ elim (r == b'\\') [
      | false ↦ string_loop f start (b ++ r ∷ []) s (advance r p)
      | true ↦ elim s [
        | [] ↦ failed (record { span = span_at name start; reason = unterminated_string })
        | c ∷ cs ↦ elim (unquote_char (r ∷ c ∷ cs)) [
          | none ↦ failed (record { span = span_at name p; reason = invalid_escape })
          | some (value, rest) ↦
              let tail = r ∷ c ∷ cs in
              let consumed = length tail - length rest in
              string_loop f start (b ++ value ∷ []) (drop consumed tail)
                (advance_all (take consumed tail) p)
        ]
      ]
    ]
  ]

  unfoldable pub lex_string : Text → Position → Outcome (Token × Text × Position)
  unfolding string_loop
  lex_string s p = string_loop (suc (length s)) p [] s (advance b'"' p)

  unfoldable pub lex_comment : Position → Run → Outcome (Token × Text × Position)
  unfolding token trim_blanks
  lex_comment start (text, s, p) = done (token comment_token (trim_blanks text) start p, s, p)

  unfoldable pub lex_word : Position → Run → Outcome (Token × Text × Position)
  unfolding token
  lex_word start (text, s, p) = done (token atom_token text start p, s, p)

  -- `lexer.next`: white space is skipped, and the first other character chooses.
  unfoldable pub next_token : Text → Position → Outcome (Token × Text × Position)
  unfolding token take_line take_word lex_string lex_comment lex_word is_delimiter is_space
  next_token [] p = done (token eof_token [] p p, [], p)
  next_token (r ∷ s) p =
      if is_space r
      then next_token s (advance r p)
      else if r == b';'
      then lex_comment p (take_line (r ∷ s) p)
      else if r == b'('
      then done (token lparen_token (r ∷ []) p (advance r p), s, advance r p)
      else if r == b')'
      then done (token rparen_token (r ∷ []) p (advance r p), s, advance r p)
      else if r == b'"'
      then lex_string s p
      else lex_word p (take_word (r ∷ s) p)
