-- ===== src/History/File.antt =====
-- The history file: saving and loading.
use gess.Prelude.{
  ◌≡◌, refl, ap, ◌∙◌, subst, sym, ◌≢◌, false, List, [], ◌∷◌, ◌++◌, append_assoc, append-nil, ℕ,
  zero, suc, ◌≤◌, ◌<◌, Text, list_beq, list_beq_iff, nat_eq, ◌==◌, trim_space, is_space, length,
  length-append, last?, All, arith, Option-cases, Bool-cases, if◌then◌else◌, inl, inr,
}
use gess.Prelude.Trim.{last_not_space}
use gess.Prelude.Int.{pos}
use gess.History.{
  ReplHistory, new_repl_history, cut_entries, is_last, add, add_lines, drop_cr, is_too_long,
  scan_lines, load_repl_history, join_lines, save_repl_history,
}
use gess.History.Entries.{IsEntry, IsHistory, Alternates}

-- No newline in a line.
abbrev pub IsLine : Text → Type 0
IsLine = All (λ c. c ≢ 0x0a)

drop_cr-entry : (l : Text) → IsEntry l → drop_cr l ≡ l
drop_cr-entry l v = elim (Option-cases (last? l)) [
  | inl e ↦ rw (e, drop_cr)
  | inr (c, e) ↦ rw (e, drop_cr) (ground (arith, not_cr c (last_not_space l c v.0 e)))
]
  where
    not_cr : (c : ℕ) → is_space c ≡ false → (c == 0x0d) ≡ false
    not_cr c h = unfold is_space in ground (arith, h)

-- The entries before the first one that is too long for the scanner.
abbrev pub before_too_long : List Text → List Text
before_too_long [] = []
before_too_long (l ∷ ls) = let rest = before_too_long ls in if is_too_long l then [] else l ∷ rest

scan_line :
    (acc l rest : Text)
    → IsLine l
    → scan_lines acc (l ++ 0x0a ∷ rest)
      ≡ (if is_too_long (acc ++ l) then [] else drop_cr (acc ++ l) ∷ scan_lines [] rest)
unfolding scan_lines
scan_line acc [] rest v =
    ap (λ t. if is_too_long t then [] else drop_cr t ∷ scan_lines [] rest) (sym (append-nil acc))
scan_line acc (c ∷ l) rest v =
    rw (not_newline, scan_lines)
      (scan_line (acc ++ c ∷ []) l rest v.1
        ∙ ap (λ t. if is_too_long t then [] else drop_cr t ∷ scan_lines [] rest)
            (append_assoc acc (c ∷ []) l))
  where
    not_newline : (c == 0x0a) ≡ false
    not_newline = ground (arith, v.0)

scan_entry :
    (l rest : Text)
    → IsEntry l
    → IsLine l
    → scan_lines [] (l ++ 0x0a ∷ rest) ≡ (if is_too_long l then [] else l ∷ scan_lines [] rest)
scan_entry l rest v n =
    scan_line [] l rest n
    ∙ ap (λ t. if is_too_long l then [] else t ∷ scan_lines [] rest) (drop_cr-entry l v)

scan-join :
    (l : Text) (ls : List Text)
    → All IsEntry (l ∷ ls)
    → All IsLine (l ∷ ls)
    → scan_lines [] (join_lines (l ∷ ls) ++ 0x0a ∷ []) ≡ before_too_long (l ∷ ls)
unfolding join_lines
scan-join l [] v n =
    scan_entry l [] v.0 n.0
    ∙ ap (λ t. if is_too_long l then [] else l ∷ t) (unfold scan_lines in refl)
scan-join l (m ∷ ls) v n =
    ap (scan_lines []) (append_assoc l (0x0a ∷ join_lines (m ∷ ls)) (0x0a ∷ []))
    ∙ scan_entry l (join_lines (m ∷ ls) ++ 0x0a ∷ []) v.0 n.0
    ∙ ap (λ t. if is_too_long l then [] else l ∷ t) (scan-join m ls v.1 n.1)

new_after :
    (pre : List Text) (l : Text) (ls : List Text)
    → Alternates (pre ++ l ∷ ls)
    → is_last pre l ≡ false
new_after [] l ls a = refl
new_after (x ∷ []) l ls a = ground (arith, a.0, list_beq_iff x l)
new_after (x ∷ (y ∷ pre)) l ls a = new_after (y ∷ pre) l ls a.1

add_lines-entries :
    (h : ReplHistory) (pre ls : List Text)
    → Alternates (pre ++ ls)
    → All IsEntry ls
    → length (pre ++ ls) ≤ h.limit
    → add_lines (record h { entries = pre }) ls ≡ record h { entries = pre ++ ls }
unfolding add_lines
add_lines-entries h pre [] a v b = ap (λ e. record h { entries = e }) (sym (append-nil pre))
add_lines-entries h pre (l ∷ ls) a v b = rw added (
    add_lines-entries h (pre ++ l ∷ []) ls (subst Alternates (sym regroup) a) v.1
      (omega (arith, ap length regroup))
    ∙ ap (λ e. record h { entries = e }) regroup)
  where
    regroup : (pre ++ l ∷ []) ++ ls ≡ pre ++ l ∷ ls
    regroup = append_assoc pre (l ∷ []) ls

    filled : list_beq (trim_space l) [] ≡ false
    filled = ground (arith, v.0.0, v.0.1, list_beq_iff l [])

    fits : length (pre ++ l ∷ []) ≤ h.limit
    fits = omega (arith, length-append pre (l ∷ []), length-append pre (l ∷ ls))

    added : add (record h { entries = pre }) l ≡ record h { entries = pre ++ l ∷ [] }
    added = unfold add cut_entries in ground (arith, filled, v.0.0, new_after pre l ls a, fits)

new_limit : (n : ℕ) → 0 < n → new_repl_history (pos n) ≡ record { entries = []; limit = n }
unfolding new_repl_history
new_limit zero h = absurd (omega arith)
new_limit (suc n) h = refl

join-filled : (l : Text) (ls : List Text) → l ≢ [] → list_beq (join_lines (l ∷ ls)) [] ≡ false
unfolding join_lines list_beq
join-filled [] ls h = absurd (h refl)
join-filled (c ∷ l) [] h = refl
join-filled (c ∷ l) (m ∷ ls) h = refl

scan-save :
    (es : List Text) (limit : ℕ)
    → All IsEntry es
    → All IsLine es
    → scan_lines [] (save_repl_history (record { entries = es; limit = limit }))
      ≡ before_too_long es
unfolding save_repl_history
scan-save [] limit v n = unfold join_lines list_beq scan_lines in refl
scan-save (l ∷ ls) limit v n = rw (join-filled l ls v.0.1, save_repl_history) (scan-join l ls v n)

before-IsEntry : (es : List Text) → All IsEntry es → All IsEntry (before_too_long es)
before-IsEntry [] v = tt
before-IsEntry (l ∷ ls) v = elim (Bool-cases (is_too_long l)) [
  | inl long ↦ rw long tt
  | inr short ↦ rw short (v.0, before-IsEntry ls v.1)
]

length-before : (es : List Text) → length (before_too_long es) ≤ length es
length-before [] = omega arith
length-before (l ∷ ls) = elim (Bool-cases (is_too_long l)) [
  | inl long ↦ rw long (omega arith)
  | inr short ↦ rw short (omega (arith, length-before ls))
]

before-Alternates : (es : List Text) → Alternates es → Alternates (before_too_long es)
before-Alternates [] a = tt
before-Alternates (l ∷ []) a = elim (Bool-cases (is_too_long l)) [
  | inl long ↦ rw long tt
  | inr short ↦ rw short tt
]
before-Alternates (l ∷ (m ∷ ls)) a = elim (Bool-cases (is_too_long l)) [
  | inl long ↦ rw long tt
  | inr short ↦ elim (Bool-cases (is_too_long m)) [
    | inl long ↦ rw (short, long) tt
    | inr fits ↦
        let more : Alternates (before_too_long (m ∷ ls)) = before-Alternates (m ∷ ls) a.1 in
        rw (short, fits) (a.0, rw fits at more)
  ]
]

-- What is loaded, under the same limit, from the file that a history is saved to, where the history
-- is well formed and no entry has a newline in it: the entries before the first of 65,536 bytes or
-- more, and no others.
pub load-save :
    (h : ReplHistory)
    → IsHistory h
    → All IsLine h.entries
    → load_repl_history (save_repl_history h) (pos h.limit)
      ≡ record h { entries = before_too_long h.entries }
unfolding load_repl_history
load-save h v n =
    rw (new_limit h.limit v.positive, scan-save h.entries h.limit v.entry n)
      (add_lines-entries h [] (before_too_long h.entries) (before-Alternates h.entries v.alternates)
        (before-IsEntry h.entries v.entry) (omega (arith, v.bounded, length-before h.entries)))
