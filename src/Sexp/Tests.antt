-- ===== src/Sexp/Tests.antt =====
-- Runs of the reader and the formatter of s-expressions on the source's own examples.
use gess.Prelude.{
  leb, ◌&&◌, ◌-◌, if◌then◌else◌, String, true, false, Option, none, some, List, [], ◌∷◌, ◌++◌, ◌≡◌,
  refl, ◌⊎◌, ℕ, ◌≤◌, nat_eq, arith, Text, codes, is_space,
}
use gess.Sexp.Syntax.{FileError, Outcome, done, failed, Expr, Exprs, atom, list, nil, cons, newline}
use gess.Prelude.Int.{ℤ, pos}
use gess.Sexp.Value.{Scalar, text_value, null, integer, float, atom_value}
use gess.Sexp.Parser.{parse_all}
use gess.Sexp.Format.{format_auto, byte_length, inline_len, should_inline}
use gess.Sexp.Format.Write.{write_expr, format}
use gess.Sexp.Lexer.{trim_blanks}
use gess.Sexp.Layout.{
  comments, commented, none_of, breaks, bare_all, blank, is_word, apart, in_file, Layout, word,
  parens, close, eof, spaced, child,
}
use gess.Sexp.Layout.Quoting.{quote, unquote_char, quoting}
use gess.Sexp.Layout.Reader.{parse_all-Layout}
use gess.Sexp.Layout.Parsed.{have_no_quoted_arrow}
use gess.Sexp.Layout.RoundTrip.{parse_all-format}
use gess.Sexp.Layout.Length.{inline_len-write_expr}
use gess.Sexp.Termination.Lexing.{Shortens}
use gess.Sexp.Termination.Parsing.{parse_all-total}

unquote_char-Shortens : Shortens unquote_char
unquote_char-Shortens [] rest value h = cc
unquote_char-Shortens (b ∷ []) rest value h = cc
unquote_char-Shortens (b ∷ (c ∷ s)) rest value h = ground arith

abbrev formatted : String → Outcome Text
formatted s = format quote unquote_char [] (codes s)

format_top_level :
    formatted
      "(deftemplate customer (slot id (type STRING) (required TRUE)))\n(defquery customers (customer (id ?id)) (return (id ?id)))"
    ≡ done (
        codes
          "(deftemplate customer\n  (slot id (type STRING) (required TRUE))\n)\n\n(defquery customers\n  (customer (id ?id))\n  (return\n    (id ?id)\n  )\n)\n")
unfolding format
format_top_level = refl

format_assert :
    formatted
      "(defrule r (claim (id ?c)) => (assert (manual-review\n (claim ?c) (lane \"priority\"))))"
    ≡ done (
        codes
          "(defrule r\n  (claim (id ?c))\n  =>\n  (assert (manual-review\n    (claim ?c)\n    (lane \"priority\")\n  )\n  )\n)\n")
unfolding format
format_assert = refl

format_comments :
    formatted "; top\n(item x ; one\n; close\n)"
    ≡ done (codes "; top\n(item\n  x ; one\n  ; close\n)\n")
unfolding format
format_comments = refl

-- The text "<-" between an atom and a list loses its quotes.
format_arrow :
    formatted "(f (g) x \"<-\" (h y))" ≡ done (codes "(f\n  (g)\n  x <- (h\n    y\n  )\n)\n")
unfolding format
format_arrow = refl

abbrev result : Outcome (Exprs × List Text) → Exprs × List Text
result (done r) = r
result _ = (nil, [])

abbrev source : Text
source = codes "; top\n(f \"a b\" (g ?x)) ; end"

read_source : Exprs × List Text
unfolding parse_all
read_source = result (parse_all unquote_char [] source)

parse_all-format_example :
    (text : Text) × (exprs' : Exprs) × (tail' : List Text) × (format quote unquote_char [] source
      ≡ done text)
    × (parse_all unquote_char [] text ≡ done (exprs', tail'))
    × (bare_all exprs' ≡ bare_all read_source.0)
    × (comments exprs' ++ tail' ≡ comments read_source.0 ++ read_source.1)
unfolding read_source have_no_quoted_arrow
parse_all-format_example = parse_all-format quoting [] source read_source.0 read_source.1 refl refl

abbrev word_of : String → Expr
word_of s = atom (codes s) false blank

abbrev sample_exprs : Exprs
sample_exprs = cons (word_of "a") (cons (list (cons (word_of "b") nil) blank) nil)

abbrev sample_text : Text
sample_text = codes "a ;c" ++ newline ∷ codes "(b)"

sample-Layout : Layout quote in_file sample_text sample_exprs (codes ";c" ∷ [])
unfolding is_word apart is_space none_of breaks trim_blanks
sample-Layout =
    child (codes "a") (codes " ;c" ++ newline ∷ codes "(b)") (word (codes "a") refl) refl (
      spaced 0x20 (codes ";c" ++ newline ∷ codes "(b)") refl (
        commented (codes "c") (newline ∷ codes "(b)") refl refl (
          spaced newline (codes "(b)") refl (
            child (codes "(b)") []
              (parens (codes "b)")
                (child (codes "b") (codes ")") (word (codes "b") refl) refl close))
              refl eof))))

parse_all-Layout_example :
    (ys : Exprs) × (tail : List Text) × (parse_all unquote_char [] sample_text ≡ done (ys, tail))
    × (bare_all ys ≡ sample_exprs)
    × (comments ys ++ tail ≡ codes ";c" ∷ [])
parse_all-Layout_example = parse_all-Layout quoting [] sample-Layout

parse_all-total_example :
    ((r : Exprs × List Text) × (parse_all unquote_char [] (codes "(a") ≡ done r))
    ⊎ ((e : FileError) × (parse_all unquote_char [] (codes "(a") ≡ failed e))
parse_all-total_example = parse_all-total unquote_char unquote_char-Shortens [] (codes "(a")

abbrev pair : Expr
pair = list (cons (word_of "a") (cons (word_of "b") nil)) blank

inline_len-write_expr_example :
    (byte_length (write_expr quote pair 2 format_auto) ≡ inline_len quote pair)
    × (byte_length (write_expr quote pair 2 format_auto) ≤ 88)
unfolding should_inline
inline_len-write_expr_example =
    inline_len-write_expr quote (word_of "a") (cons (word_of "b") nil) blank 2 refl

-- Upper case of ASCII letters, and numbers of one digit.
abbrev to_upper : Text → Text
to_upper [] = []
to_upper (c ∷ s) = (if leb b'a' c && leb c b'z' then c - 32 else c) ∷ to_upper s

abbrev parse_int : Text → Option ℤ
parse_int (c ∷ []) = if leb b'0' c && leb c b'9' then some (pos (c - b'0')) else none
parse_int _ = none

abbrev parse_float : Text → Option ℕ
parse_float s = some 0

abbrev value : Expr → Outcome (Scalar ℕ)
value = atom_value to_upper parse_int parse_float

value_nil : value (word_of "Nil") ≡ done null
unfolding atom_value
value_nil = refl

value_digit : value (word_of "7") ≡ done (integer (pos 7))
unfolding atom_value
value_digit = refl

-- What `strconv.ParseFloat` takes is a number only with a point or an exponent.
value_float : value (word_of "1.5") ≡ done (float 0)
unfolding atom_value
value_float = refl

value_infinity : value (word_of "inf") ≡ done (text_value (codes "inf"))
unfolding atom_value
value_infinity = refl

value_quoted : value (atom (codes "true") true blank) ≡ done (text_value (codes "true"))
unfolding atom_value
value_quoted = refl
