-- ===== src/History.antt =====
-- The line history of the interactive shell (cmd/gess/internal/repl/history.go). The history file
-- is its contents; opening, reading and writing it is not modelled. A navigator takes the
-- history that it points to as an argument.
pub mod Entries
pub mod File
pub mod Browse
mod Tests
use gess.Prelude.{
  if◌then◌else◌, Bool, true, false, Option, none, some, List, [], ◌∷◌, ◌++◌, ℕ, zero, suc, ◌+◌, ◌-◌,
  ◌*◌, Text, ◌==◌, nat_eq, list_eq, list_beq, trim_space, length, drop, last?, init, get_elem?, ltb,
  leb,
}
use gess.Prelude.Int.{ℤ, pos, negsuc}
use gess.Sexp.Format.{byte_length}

abbrev pub default_history_limit : ℕ
default_history_limit = 1000

pub record ReplHistory : Type 0 where
  pub entries : List Text
  pub limit : ℕ

unfoldable pub new_repl_history : ℤ → ReplHistory
new_repl_history (pos zero) = record { entries = []; limit = default_history_limit }
new_repl_history (pos (suc n)) = record { entries = []; limit = suc n }
new_repl_history (negsuc n) = record { entries = []; limit = default_history_limit }

-- The last `limit` entries.
unfoldable pub cut_entries : ℕ → List Text → List Text
cut_entries limit entries =
    if ltb limit (length entries) then drop (length entries - limit) entries else entries

abbrev pub is_last : List Text → Text → Bool
is_last entries line = elim (last? entries) [ none ↦ false | some l ↦ list_beq l line ]

unfoldable pub add : ReplHistory → Text → ReplHistory
unfolding trim_space list_beq cut_entries
add h raw =
    let line = trim_space raw in
    if line == []
    then h
    else if is_last h.entries line
    then h
    else record h { entries = cut_entries h.limit (h.entries ++ line ∷ []) }

unfoldable pub add_lines : ReplHistory → List Text → ReplHistory
unfolding add
add_lines h [] = h
add_lines h (line ∷ lines) = add_lines (add h line) lines

-- What `bufio.Scanner` yields: the lines of a file, without the newline and one carriage return.
abbrev pub drop_cr : Text → Text
drop_cr line = elim (last? line) [ none ↦ line | some c ↦ if c == 0x0d then init line else line ]

-- The buffer of a `bufio.Scanner` holds at most `bufio.MaxScanTokenSize` bytes, so a line, without
-- its newline, has fewer.
abbrev pub max_scan_token_size : ℕ
max_scan_token_size = 64 * 1024

abbrev pub is_too_long : Text → Bool
is_too_long line = leb max_scan_token_size (byte_length line)

-- `line` is what has been read of the current line. A line that is too long ends the scan.
unfoldable pub scan_lines : Text → Text → List Text
unfolding byte_length
scan_lines line [] = elim line [
  | [] ↦ []
  | c ∷ cs ↦ if is_too_long (c ∷ cs) then [] else drop_cr (c ∷ cs) ∷ []
]
scan_lines line (c ∷ cs) =
    let rest = scan_lines [] cs in
    let more = scan_lines (line ++ c ∷ []) cs in
    if c == 0x0a then (if is_too_long line then [] else drop_cr line ∷ rest) else more

unfoldable pub load_repl_history : Text → ℤ → ReplHistory
unfolding new_repl_history add_lines scan_lines
load_repl_history contents limit = add_lines (new_repl_history limit) (scan_lines [] contents)

-- `strings.Join(entries, "\n")`.
unfoldable pub join_lines : List Text → Text
join_lines [] = []
join_lines (l ∷ []) = l
join_lines (l ∷ (m ∷ ls)) = l ++ 0x0a ∷ join_lines (m ∷ ls)

unfoldable pub save_repl_history : ReplHistory → Text
unfolding join_lines
save_repl_history h =
    let contents = join_lines h.entries in
    if list_beq contents [] then contents else contents ++ 0x0a ∷ []

pub record Navigator : Type 0 where
  pub index : ℕ
  pub draft : Text

unfoldable pub reset : ReplHistory → Text → Navigator
reset h draft = record { index = length h.entries; draft = draft }

-- `none` is the answer that there is nothing to show.
unfoldable pub previous : ReplHistory → Navigator → Text → Navigator × Option Text
previous h n current =
    if length h.entries == 0
    then (n, none)
    else let n' : Navigator = record n {
      draft = if n.index == length h.entries then current else n.draft;
    } in
      if n.index == 0
      then (n', get_elem? h.entries 0)
      else (record n' { index = n.index - 1 }, get_elem? h.entries (n.index - 1))

unfoldable pub next : ReplHistory → Navigator → Navigator × Option Text
next h n =
    if leb (length h.entries) n.index
    then (n, none)
    else let n' : Navigator = record n { index = n.index + 1 } in
      if n'.index == length h.entries
      then (n', some n.draft)
      else (n', get_elem? h.entries n'.index)
