-- ===== src/Module/Names.antt =====
-- Normal forms of module names and of references to named definitions.
use gess.Prelude.{trim_space, ◌≡◌, refl, ◌∙◌, true, false, inl, inr, Bool-cases}
use gess.Prelude.Trim.{trim_space-trim_space}
use gess.Module.{ModuleName, main_module, is_zero, normalize_module_name}

pub normalize-zero :
    (name : ModuleName) → is_zero name ≡ true → normalize_module_name name ≡ main_module
unfolding normalize_module_name is_zero
normalize-zero name h = rw (trim_space-trim_space name, h)

pub normalize-trim :
    (name : ModuleName) → is_zero name ≡ false → normalize_module_name name ≡ trim_space name
unfolding normalize_module_name is_zero
normalize-trim name h = rw (trim_space-trim_space name, h)

pub main-normal : normalize_module_name main_module ≡ main_module
unfolding normalize_module_name
main-normal = refl

main-nonzero : is_zero main_module ≡ false
unfolding is_zero
main-nonzero = refl

zero-trim : (name : ModuleName) → is_zero (trim_space name) ≡ is_zero name
unfolding is_zero
zero-trim name = rw (trim_space-trim_space name)

-- Normalizing a module name twice is normalizing it once.
pub normalize-normalize :
    (name : ModuleName)
    → normalize_module_name (normalize_module_name name) ≡ normalize_module_name name
normalize-normalize name = elim (Bool-cases (is_zero name)) [
  | inl z ↦ rw (normalize-zero name z) main-normal
  | inr n ↦
      rw (normalize-trim name n)
        (normalize-trim (trim_space name) (zero-trim name ∙ n) ∙ trim_space-trim_space name)
]

-- A normal name is never the zero name.
pub is_zero-normalize : (name : ModuleName) → is_zero (normalize_module_name name) ≡ false
is_zero-normalize name = elim (Bool-cases (is_zero name)) [
  | inl z ↦ rw (normalize-zero name z) main-nonzero
  | inr n ↦ rw (normalize-trim name n) (zero-trim name ∙ n)
]
