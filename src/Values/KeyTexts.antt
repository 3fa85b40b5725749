-- ===== src/Values/KeyTexts.antt =====
-- The texts that canonical keys are made of (rules/value.go), each followed by more.
use gess.Prelude.{
  Bool, true, false, ◌||◌, Option, [], ◌∷◌, ◌++◌, ℕ, suc, ◌+◌, ◌<◌, ◌==◌, nat_eq, ◌≡◌, refl, sym,
  ◌∙◌, ap, subst, arith, Text, length, append_assoc,
}
use gess.Prelude.Int.{ℤ}
use gess.Values.{Float64, finite}
use gess.Values.Key.{is_whole}
use gess.Sexp.Syntax.{Outcome, done, Token, Position}
use gess.Sexp.Lexer.{token, string_loop}
use gess.Sexp.Layout.{none_of}
use gess.Sexp.Layout.Words.{Quotes, flat, string_loop-flat}

-- What ends the key of an item: the comma before the next, or the bracket of its list.
abbrev pub is_key_end : ℕ → Bool
is_key_end c = c == b',' || c == b']'

abbrev pub is_float_mark : ℕ → Bool
is_float_mark c = c == b'.' || c == b'e'

-- What is documented of `strconv.FormatFloat` with the shortest precision: the text tells the float,
-- has neither comma nor bracket, and, where the float is no integer within 2 ^ 53, has a point or an
-- exponent.
pub record Formats (format_float : Float64 → Text) : Type 0 where
  pub clean : (k : ℤ) → none_of is_key_end (format_float (finite k)) ≡ true
  pub marked :
      (k : ℤ) → is_whole k ≡ false → none_of is_float_mark (format_float (finite k)) ≡ false
  pub exact : (j k : ℤ) → format_float (finite j) ≡ format_float (finite k) → j ≡ k

-- A text that ends a key.
unfoldable pub ends_key : Text → Bool
ends_key [] = true
ends_key (c ∷ s) = is_key_end c

mid_key :
    (c : ℕ) (s : Text) → none_of is_key_end (c ∷ s) ≡ true → is_key_end c ≡ true → false ≡ true
unfolding none_of
mid_key c s h e = ground arith

pub clean_split :
    (s t r q : Text)
    → none_of is_key_end s ≡ true
    → none_of is_key_end t ≡ true
    → ends_key r ≡ true
    → ends_key q ≡ true
    → s ++ r ≡ t ++ q
    → (s ≡ t) × (r ≡ q)
unfolding none_of ends_key
clean_split [] [] r q a b c d h = (refl, h)
clean_split [] (y ∷ t) [] q a b c d h = cc
clean_split [] (y ∷ t) (x ∷ r) q a b c d h =
    let same : x ≡ y = cc in
    let clash : false ≡ true = mid_key y t b (subst (λ z. is_key_end z ≡ true) same c) in (cc, cc)
clean_split (x ∷ s) [] r [] a b c d h = cc
clean_split (x ∷ s) [] r (y ∷ q) a b c d h =
    let same : y ≡ x = cc in
    let clash : false ≡ true = mid_key x s a (subst (λ z. is_key_end z ≡ true) same d) in (cc, cc)
clean_split (x ∷ s) (y ∷ t) r q a b c d h =
    let (e, f) = clean_split s t r q (ground arith) (ground arith) c d (cc) in
    let same : x ≡ y = cc in (cc, f)

module _ {quote : Text → Text} {unquote_char : Text → Option (ℕ × Text)}
    (quotes : Quotes quote unquote_char) where
  abbrev read : Outcome (Token × Text × Position) → Text × Text
  read (done (tok, rest, at)) = (tok.text, rest)
  read _ = ([], [])

  abbrev start : Position
  start = record { line = 1; col = 1 }

  read_back :
      (t : Text) (f : ℕ) (s : Text)
      → length t < f
      → read (string_loop unquote_char [] f start [] (flat quotes.quoted_char t ++ b'"' ∷ s) start)
        ≡ (t, s)
  unfolding token
  read_back t f s h =
      let (at, e) =
        string_loop-flat unquote_char [] quotes.quoted_char quotes.each t f start [] s start h in
      rw e refl

  quote_text : (s r : Text) → quote s ++ r ≡ b'"' ∷ (flat quotes.quoted_char s ++ b'"' ∷ r)
  quote_text s r =
      ap (λ u. u ++ r) (quotes.quote_lem s)
      ∙ ap (◌∷◌ b'"') (append_assoc (flat quotes.quoted_char s) (b'"' ∷ []) r)

  abbrev tail : Text → Text
  tail [] = []
  tail (c ∷ u) = u

  -- What is quoted tells where it ends.
  pub quote_split : (s t r q : Text) → quote s ++ r ≡ quote t ++ q → (s ≡ t) × (r ≡ q)
  quote_split s t r q h =
      let f = suc (length s + length t) in
      let same : flat quotes.quoted_char s ++ b'"' ∷ r ≡ flat quotes.quoted_char t ++ b'"' ∷ q =
        ap tail (sym (quote_text s r) ∙ h ∙ quote_text t q) in
      let both : (s, r) ≡ (t, q) =
        sym (read_back s f r (omega arith))
        ∙ ap (λ u. read (string_loop unquote_char [] f start [] u start)) same
        ∙ read_back t f q (omega arith) in
      (ap (λ u. u.0) both, ap (λ u. u.1) both)
