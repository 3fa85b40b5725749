-- ===== src/Sexp/Layout/RoundTrip.antt =====
-- Reading again what `Format` (internal/gesssexp/format.go) has written.
use gess.Prelude.{true, Option, List, ◌++◌, ℕ, ◌≡◌, ap, subst, Text}
use gess.Sexp.Syntax.{done, ◌>>=◌, Exprs}
use gess.Sexp.Parser.{parse_all}
use gess.Sexp.Format.Write.{format_exprs, format}
use gess.Sexp.Layout.{bare_all, comments}
use gess.Sexp.Layout.Words.{Quotes}
use gess.Sexp.Layout.Reader.{parse_all-Layout}
use gess.Sexp.Layout.File.{format_exprs-Layout}
use gess.Sexp.Layout.Lexed.{Ensures}
use gess.Sexp.Layout.Parsed.{have_no_quoted_arrow, all_formattable-well_formed}
use gess.Sexp.Layout.ParserFormed.{FileFormed, parse_all-formed}

-- If `quote` and `unquote_char` agree as `Quotes` says, then on every file that parses, and in which no
-- string reads "<-", `Format` succeeds, what it writes parses, the expressions are the same,
-- comments and positions aside, and the comments of the whole file are the same, in the same order.
pub parse_all-format :
    {quote : Text → Text} {unquote_char : Text → Option (ℕ × Text)}
    (quotes : Quotes quote unquote_char) (name source : Text) (exprs : Exprs) (tail : List Text)
    → parse_all unquote_char name source ≡ done (exprs, tail)
    → have_no_quoted_arrow exprs ≡ true
    → (text : Text) × (exprs' : Exprs) × (tail' : List Text) × (format quote unquote_char name
          source
        ≡ done text)
      × (parse_all unquote_char name text ≡ done (exprs', tail'))
      × (bare_all exprs' ≡ bare_all exprs)
      × (comments exprs' ++ tail' ≡ comments exprs ++ tail)
unfolding format
parse_all-format {quote} {unquote_char} quotes name source exprs tail parsed arrows =
    let formed =
      subst (λ r. Ensures FileFormed r) parsed (parse_all-formed unquote_char name source) in
    let laid =
      format_exprs-Layout quote exprs tail (all_formattable-well_formed exprs formed.0 arrows)
        formed.1 in
    let (exprs', tail', again, same, kept) = parse_all-Layout quotes name laid in
    (
      format_exprs quote exprs tail,
      exprs',
      tail',
      ap (λ r. r >>= λ (es, cs). done (format_exprs quote es cs)) parsed,
      again,
      same,
      kept,
    )
