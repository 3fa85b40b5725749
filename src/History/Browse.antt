-- ===== src/History/Browse.antt =====
-- Walking through the history: `next` undoes `previous`.
use gess.Prelude.{
  ◌≡◌, if◌then◌else◌, Option, some, ◌+◌, ◌≤◌, ◌<◌, Text, ◌==◌, nat_eq, length, get_elem?, arith,
}
use gess.History.{ReplHistory, Navigator, previous, next}

-- What the line editor shows at the navigator's place: the draft below the newest entry.
abbrev pub shown : ReplHistory → Navigator → Text → Option Text
shown h n current =
    if n.index == length h.entries then some current else get_elem? h.entries n.index

-- From a place behind the oldest entry and no further than the draft, `previous` goes to the entry
-- before and shows it, and a `next` after it comes back to the place that it left and shows what
-- stood there, the current line where that was the draft.
pub next-previous :
    (h : ReplHistory) (n : Navigator) (current : Text)
    → 0 < n.index
    → n.index ≤ length h.entries
    → let (up, line) = previous h n current in
      let (back, again) = next h up in
      (up.index + 1 ≡ n.index)
      × (line ≡ get_elem? h.entries up.index)
      × (back.index ≡ n.index)
      × (again ≡ shown h n current)
unfolding previous next
next-previous h n current p q = ground arith
