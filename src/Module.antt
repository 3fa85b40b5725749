-- ===== src/Module.antt =====
-- Module names and the modules of a workspace (internal/engine/module.go, rules/module.go,
-- `ModuleName` of rules/id.go). A Go map is an association list; the pointer `*bool` of an optional
-- flag is an `Option Bool`; copying a value (`cloneModule`) is the identity.
pub mod Names
pub mod Compile
mod Tests
use gess.Prelude.{
  Text, codes, trim_space, list_beq, list_beq_iff, nat_eq, list_eq, Eq, ◌==◌, if◌then◌else◌, Bool,
  true, false, ◌&&◌, Option, none, some, List, [], ◌∷◌, ◌++◌, is_some,
}
use gess.Prelude.Result.{
  Result, ok, err, Reason, module_name_required, duplicate_module, Error, validation, ◌>>=◌,
}
use gess.Prelude.Assoc.{Assoc, lookup, insert}

abbrev pub ModuleName : Type 0
ModuleName = Text

abbrev pub main_module : ModuleName
main_module = codes "MAIN"

-- `ModuleName.IsZero`.
unfoldable pub is_zero : ModuleName → Bool
unfolding trim_space list_beq
is_zero name = trim_space name == []

unfoldable pub normalize_module_name : ModuleName → ModuleName
unfolding is_zero
normalize_module_name name =
    let trimmed = trim_space name in if is_zero trimmed then main_module else trimmed

pub record QualifiedName : Type 0 where
  pub module_of : ModuleName
  pub name : Text

pub record NameRef : Type 0 where
  pub module_of : ModuleName
  pub name : Text

unfoldable pub normalize_qualified_name : QualifiedName → QualifiedName
unfolding normalize_module_name
normalize_qualified_name n = record {
  module_of = normalize_module_name n.module_of;
  name = trim_space n.name;
}

unfoldable pub normalize_name_ref : NameRef → ModuleName → QualifiedName
unfolding normalize_module_name
normalize_name_ref r author = record {
  module_of =
      if is_zero r.module_of
      then normalize_module_name author
      else normalize_module_name r.module_of;
  name = trim_space r.name;
}

pub record ModuleSpec : Type 0 where
  pub name : ModuleName
  pub description : Text
  pub auto_focus : Option Bool

pub record Module : Type 0 where
  pub name : ModuleName
  pub description : Text
  pub auto_focus : Option Bool

unfoldable pub compile_module_spec : ModuleSpec → Result Module
unfolding is_zero
compile_module_spec spec =
    let name = trim_space spec.name in
    if is_zero name
    then err (validation module_name_required)
    else ok (record { name = name; description = spec.description; auto_focus = spec.auto_focus })

abbrev pub implicit_main_module : Module
implicit_main_module = record { name = main_module; description = []; auto_focus = none }

abbrev bool_beq : Bool → Bool → Bool
bool_beq true b = b
bool_beq false true = false
bool_beq false false = true

-- The tail of `sameModuleDeclaration`: two optional flags.
abbrev pub same_flag : Option Bool → Option Bool → Bool
same_flag none none = true
same_flag none (some b) = false
same_flag (some a) none = false
same_flag (some a) (some b) = bool_beq a b

unfoldable pub same_module_declaration : Module → Module → Bool
unfolding list_beq
same_module_declaration left right =
    (left.name == right.name && left.description == right.description)
    && same_flag left.auto_focus right.auto_focus

-- `modules`, `moduleOrder` and `explicit` of `compileWorkspaceModules`.
pub record Build : Type 0 where
  pub modules : Assoc ModuleName Module
  pub order : List ModuleName
  pub explicit : Assoc ModuleName (Unit {0})

abbrev pub zero_module : Module
zero_module = record { name = []; description = []; auto_focus = none }

abbrev pub or_zero : Option Module → Module
or_zero none = zero_module
or_zero (some m) = m

-- One round of the loop over the specs, after `compileModuleSpec`.
unfoldable pub add_module : Build → Module → Result Build
unfolding same_module_declaration lookup insert
add_module b m =
    if is_some (lookup m.name b.explicit)
    then if same_module_declaration (or_zero (lookup m.name b.modules)) m
      then ok b
      else err (validation duplicate_module)
    else ok (record {
      modules = insert m.name m b.modules;
      order = if is_some (lookup m.name b.modules) then b.order else b.order ++ m.name ∷ [];
      explicit = insert m.name tt b.explicit;
    })

unfoldable pub add_modules : Build → List ModuleSpec → Result Build
unfolding compile_module_spec add_module
add_modules b [] = ok b
add_modules b (spec ∷ specs) = do
  m ← compile_module_spec spec
  b' ← add_module b m
  add_modules b' specs

unfoldable pub collect_modules : Assoc ModuleName Module → List ModuleName → List Module
unfolding lookup
collect_modules modules [] = []
collect_modules modules (name ∷ names) =
    or_zero (lookup name modules) ∷ collect_modules modules names

pub record Workspace : Type 0 where
  pub compiled : List Module
  pub modules : Assoc ModuleName Module
  pub order : List ModuleName

abbrev pub initial_build : Build
initial_build = record {
  modules = (main_module, implicit_main_module) ∷ [];
  order = main_module ∷ [];
  explicit = [];
}

unfoldable pub compile_workspace_modules : List ModuleSpec → Result Workspace
unfolding add_modules collect_modules
compile_workspace_modules specs = do
  b ← add_modules initial_build specs
  ok (record { compiled = collect_modules b.modules b.order; modules = b.modules; order = b.order })

unfoldable pub validate_module_reference : Assoc ModuleName Module → ModuleName → ModuleName × Bool
unfolding normalize_module_name lookup
validate_module_reference modules name =
    let normalized = normalize_module_name name in (normalized, is_some (lookup normalized modules))
