-- ===== src/Sexp/Value.antt =====
-- `AtomValue` of internal/gesssexp/parser.go: the value that an atom stands for. `strings.ToUpper`,
-- `strconv.ParseInt(s, 10, 64)` and `strconv.ParseFloat(s, 64)` are parameters, none for an error; the
-- floating-point numbers are a type that the latter gives.
use gess.Prelude.{
  if◌then◌else◌, Bool, true, false, ◌||◌, Option, none, some, [], ◌∷◌, ◌==◌, nat_eq, list_eq,
  list_beq, Text, codes,
}
use gess.Prelude.Int.{ℤ}
use gess.Sexp.Syntax.{Outcome, done, failed, Expr, atom, list, expected_scalar}

pub data Scalar (F : Type 0) : Type 0 where
  text_value : Text → Scalar F
  truth : Bool → Scalar F
  null : Scalar F
  integer : ℤ → Scalar F
  float : F → Scalar F

-- `strings.ContainsAny(s, ".eE")`
unfoldable pub contains_float_mark : Text → Bool
contains_float_mark [] = false
contains_float_mark (c ∷ s) = c == b'.' || c == b'e' || c == b'E' || contains_float_mark s

module _ {F : Type 0} (to_upper : Text → Text) (parse_int : Text → Option ℤ)
    (parse_float : Text → Option F) where
  -- An atom without quotes that is no word of the language: a number, or its text.
  unfoldable pub number_or_text : Text → Scalar F
  unfolding contains_float_mark
  number_or_text s = elim (parse_int s) [
    | some i ↦ integer i
    | none ↦ elim (parse_float s) [
      | some x ↦ if contains_float_mark s then float x else text_value s
      | none ↦ text_value s
    ]
  ]

  unfoldable pub word_value : Text → Scalar F
  unfolding number_or_text list_beq
  word_value s =
      let upper = to_upper s in
      if upper == codes "TRUE"
      then truth true
      else if upper == codes "FALSE"
      then truth false
      else if upper == codes "NULL" || upper == codes "NIL"
      then null
      else number_or_text s

  unfoldable pub atom_value : Expr → Outcome (Scalar F)
  unfolding word_value
  atom_value (list xs t) = failed (record { span = t.span; reason = expected_scalar })
  atom_value (atom s true t) = done (text_value s)
  atom_value (atom s false t) = done (word_value s)
