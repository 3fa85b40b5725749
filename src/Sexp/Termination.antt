-- ===== src/Sexp/Termination.antt =====
-- The lexer and the parser of internal/gesssexp/parser.go come to an end on every input: the fuel of
-- the model's loops is always enough, if `strconv.UnquoteChar` takes at least one character.
pub mod Lexing
pub mod Parsing
