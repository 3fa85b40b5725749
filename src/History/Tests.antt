-- ===== src/History/Tests.antt =====
-- The theorems on the shell's history at concrete histories.
use gess.Prelude.{◌≡◌, List, [], ◌∷◌, Text, codes, All, arith}
use gess.Prelude.Int.{pos}
use gess.History.{
  ReplHistory, Navigator, new_repl_history, add_lines, load_repl_history, save_repl_history,
}
use gess.History.Entries.{IsHistory, add_lines-IsHistory}
use gess.History.File.{IsLine, before_too_long, load-save}

abbrev lines : List Text
lines = codes "run" ∷ codes " facts " ∷ codes "facts" ∷ []

abbrev history : ReplHistory
history = record { entries = codes "run" ∷ codes "facts" ∷ []; limit = 2 }

history-IsHistory : IsHistory history
unfolding add_lines new_repl_history
history-IsHistory = add_lines-IsHistory (pos 2) lines

history-IsLine : All IsLine history.entries
history-IsLine = ground arith

load-save_example :
    load_repl_history (save_repl_history history) (pos 2)
    ≡ record history { entries = before_too_long history.entries }
load-save_example = load-save history history-IsHistory history-IsLine

abbrev navigator : Navigator
navigator = record { index = 2; draft = [] }
