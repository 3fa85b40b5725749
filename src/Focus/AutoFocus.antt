-- ===== src/Focus/AutoFocus.antt =====
-- `applyAutoFocus` of internal/engine/focus.go: which module has the focus after a batch of changes.
use gess.Prelude.{
  ◌≡◌, refl, ◌∙◌, if◌then◌else◌, Option, none, some, List, [], ◌∷◌, Text, list_eq, nat_eq, arith,
}
use gess.Prelude.Assoc.{lookup}
use gess.Module.{ModuleName, normalize_module_name}
use gess.Focus.{Driver, current_focus, push_focus, Change, activated, deactivated}
use gess.Focus.Stack.{current-push}
use gess.Focus.Session.{Revision, apply_auto_focus}

-- The module that a change asks to focus: that of an activated rule with auto-focus.
unfoldable pub wanted : Revision → Change Text → Option ModuleName
unfolding lookup
wanted r c = elim c.kind [
  | deactivated ↦ none
  | activated ↦ elim (lookup c.rule_revision_id r.rules_by_revision_id) [
    | none ↦ none
    | some rule ↦ if rule.effective_auto_focus then some rule.module_of else none
  ]
]

-- The last such module of a batch.
unfoldable pub last_wanted : Revision → List (Change Text) → Option ModuleName
unfolding wanted
last_wanted r [] = none
last_wanted r (c ∷ cs) = elim (last_wanted r cs) [ some m ↦ some m | none ↦ wanted r c ]

module _ {S : Type 0} where
  abbrev pub focus_or : Driver S → Option ModuleName → ModuleName
  focus_or d none = current_focus d
  focus_or d (some m) = normalize_module_name m

  abbrev pub push_wanted : Driver S → Option ModuleName → Driver S
  push_wanted d none = d
  push_wanted d (some m) = push_focus d m

  auto_focus-step :
      (r : Revision) (d : Driver S) (c : Change Text) (cs : List (Change Text))
      → apply_auto_focus r d (c ∷ cs) ≡ apply_auto_focus r (push_wanted d (wanted r c)) cs
  unfolding apply_auto_focus wanted
  auto_focus-step r d c cs = ground arith

  focus_or-push :
      (d : Driver S) (a b : Option ModuleName)
      → focus_or (push_wanted d a) b ≡ focus_or d (elim b [ some m ↦ some m | none ↦ a ])
  focus_or-push d none none = refl
  focus_or-push d (some m) none = current-push d m
  focus_or-push d none (some n) = refl
  focus_or-push d (some m) (some n) = refl

  -- After a batch of agenda changes the current focus is the module of the last activated rule
  -- with auto-focus in it, in normal form, or what it was where there is none.
  pub current-auto_focus :
      (r : Revision) (d : Driver S) (cs : List (Change Text))
      → current_focus (apply_auto_focus r d cs) ≡ focus_or d (last_wanted r cs)
  unfolding last_wanted
  current-auto_focus r d [] = unfold apply_auto_focus in refl
  current-auto_focus r d (c ∷ cs) = rw (auto_focus-step r d c cs) (
      current-auto_focus r (push_wanted d (wanted r c)) cs
      ∙ focus_or-push d (wanted r c) (last_wanted r cs))
