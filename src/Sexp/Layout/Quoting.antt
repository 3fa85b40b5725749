-- ===== src/Sexp/Layout/Quoting.antt =====
-- A quoting for the tests, in place of `strconv.Quote` and `strconv.UnquoteChar`.
use gess.Prelude.{
  if◌then◌else◌, ◌||◌, Bool-cases, Option, none, some, [], ◌∷◌, ◌++◌, refl, inl, inr, ℕ, ◌==◌,
  nat_eq, Text,
}
use gess.Sexp.Layout.Words.{Quotes, IsQuoted, plain, escape, flat}

-- A quoting that escapes the quote and the backslash, each by a backslash.
abbrev pub quoted_char : ℕ → Text
quoted_char c = if c == b'"' || c == b'\\' then b'\\' ∷ (c ∷ []) else c ∷ []

abbrev pub quote : Text → Text
quote s = b'"' ∷ (flat quoted_char s ++ b'"' ∷ [])

abbrev pub unquote_char : Text → Option (ℕ × Text)
unquote_char [] = none
unquote_char (b ∷ []) = none
unquote_char (b ∷ (c ∷ s)) = some (c, s)

pub quoted_char-IsQuoted : (c : ℕ) → IsQuoted unquote_char c (quoted_char c)
quoted_char-IsQuoted c = elim (Bool-cases (c == b'"')) [
  | inl e ↦ rw e (escape c [] (λ s. refl))
  | inr e ↦ elim (Bool-cases (c == b'\\')) [
    | inl k ↦ rw (e, k) (escape c [] (λ s. refl))
    | inr k ↦ rw (e, k) (plain e k)
  ]
]

pub quoting : Quotes quote unquote_char
quoting = record { quoted_char = quoted_char; quote_lem = λ s. refl; each = quoted_char-IsQuoted }
