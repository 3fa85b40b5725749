-- ===== src/History/Entries.antt =====
-- The shape of the entries: never more than the limit, trimmed, and none like the one before it.
use gess.Prelude.{
  ◌≡◌, refl, ap, ◌≢◌, Bool, false, none, some, List, [], ◌∷◌, ◌++◌, ℕ, zero, suc, ◌-◌, ◌≤◌, ◌<◌,
  Text, list_beq, list_beq_iff, nat_eq, trim_space, length, length-drop, drop, last?, All,
  All-append, arith, Bool-cases, inl, inr, ltb,
}
use gess.Prelude.Trim.{trim_space-trim_space}
use gess.Prelude.Int.{ℤ, pos, negsuc}
use gess.History.{ReplHistory, new_repl_history, cut_entries, is_last, add, add_lines}

abbrev pub IsEntry : Text → Type 0
IsEntry line = (trim_space line ≡ line) × (line ≢ [])

abbrev pub Alternates : List Text → Type 0
Alternates [] = Unit {0}
Alternates (l ∷ []) = Unit {0}
Alternates (l ∷ (m ∷ ls)) = (l ≢ m) × Alternates (m ∷ ls)

pub record IsHistory (h : ReplHistory) : Type 0 where
  pub positive : 0 < h.limit
  pub bounded : length h.entries ≤ h.limit
  pub entry : All IsEntry h.entries
  pub alternates : Alternates h.entries

Alternates-snoc :
    (ls : List Text) (l : Text) → Alternates ls → last? ls ≢ some l → Alternates (ls ++ l ∷ [])
Alternates-snoc [] l h k = tt
Alternates-snoc (x ∷ []) l h k = (λ e. k (ap some e), tt)
Alternates-snoc (x ∷ (y ∷ ls)) l h k = (h.0, Alternates-snoc (y ∷ ls) l h.1 k)

Alternates-drop : (n : ℕ) (ls : List Text) → Alternates ls → Alternates (drop n ls)
Alternates-drop zero ls h = h
Alternates-drop (suc n) [] h = tt
Alternates-drop (suc n) (x ∷ []) h = Alternates-drop n [] tt
Alternates-drop (suc n) (x ∷ (y ∷ ls)) h = Alternates-drop n (y ∷ ls) h.1

All-drop : (n : ℕ) (ls : List Text) → All IsEntry ls → All IsEntry (drop n ls)
All-drop zero ls h = h
All-drop (suc n) [] h = tt
All-drop (suc n) (x ∷ ls) h = All-drop n ls h.1

not_last : (ls : List Text) (l : Text) → is_last ls l ≡ false → last? ls ≢ some l
not_last ls l h e = cc (
  ap {B = Bool} (λ o. elim o [ none ↦ false | some x ↦ list_beq x l ]) e,
  (list_beq_iff l l).1 refl,
  h,
)

cut-IsHistory :
    (h : ReplHistory) (ls : List Text)
    → 0 < h.limit
    → All IsEntry ls
    → Alternates ls
    → IsHistory (record h { entries = cut_entries h.limit ls })
unfolding cut_entries
cut-IsHistory h ls p v a = elim (Bool-cases (ltb h.limit (length ls))) [
  | inl long ↦
      rw (long, cut_entries)
        (record {
          positive = p;
          bounded = omega (arith, length-drop (length ls - h.limit) ls);
          entry = All-drop _ ls v;
          alternates = Alternates-drop _ ls a;
        })
  | inr short ↦
      rw (short, cut_entries)
        (record { positive = p; bounded = ground arith; entry = v; alternates = a })
]

pub add-IsHistory : (h : ReplHistory) (raw : Text) → IsHistory h → IsHistory (add h raw)
unfolding add
add-IsHistory h raw v = elim (Bool-cases (list_beq (trim_space raw) [])) [
  | inl blank ↦ rw (blank, add) v
  | inr filled ↦ elim (Bool-cases (is_last h.entries (trim_space raw))) [
    | inl same ↦ rw (filled, same, add) v
    | inr new ↦
        rw (filled, new, add)
          (cut-IsHistory h (h.entries ++ trim_space raw ∷ []) v.positive
            (All-append IsEntry h.entries _ v.entry (
              (trim_space-trim_space raw, λ e. cc (filled, (list_beq_iff (trim_space raw) []).1 e)),
              tt,
            ))
            (Alternates-snoc h.entries _ v.alternates (not_last h.entries _ new)))
  ]
]

add_lines_keeps :
    (h : ReplHistory) (lines : List Text) → IsHistory h → IsHistory (add_lines h lines)
unfolding add_lines
add_lines_keeps h [] v = v
add_lines_keeps h (l ∷ ls) v = add_lines_keeps (add h l) ls (add-IsHistory h l v)

new-IsHistory : (limit : ℤ) → IsHistory (new_repl_history limit)
unfolding new_repl_history
new-IsHistory (pos zero) = record {
  positive = omega arith;
  bounded = omega arith;
  entry = tt;
  alternates = tt;
}
new-IsHistory (pos (suc n)) = record {
  positive = omega arith;
  bounded = omega arith;
  entry = tt;
  alternates = tt;
}
new-IsHistory (negsuc n) = record {
  positive = omega arith;
  bounded = omega arith;
  entry = tt;
  alternates = tt;
}

-- Whatever lines are added to a new history, it holds at most its limit of entries, every entry is
-- trimmed and not empty, and no entry equals the one before it.
pub add_lines-IsHistory :
    (limit : ℤ) (lines : List Text) → IsHistory (add_lines (new_repl_history limit) lines)
add_lines-IsHistory limit lines = add_lines_keeps _ lines (new-IsHistory limit)
