-- ===== src/Module/Tests.antt =====
-- The theorems on modules at concrete names and specs.
use gess.Prelude.{◌≡◌, refl, true, none, some, List, [], ◌∷◌, codes, All, list_eq, nat_eq}
use gess.Prelude.Assoc.{lookup}
use gess.Prelude.Result.{ok}
use gess.Module.{
  NameRef, ModuleSpec, Module, Workspace, main_module, implicit_main_module, compile_module_spec,
  compile_workspace_modules,
}
use gess.Module.Compile.{compile_workspace-declares}

abbrev reference : NameRef
reference = record { module_of = []; name = codes " order " }

abbrev specs : List ModuleSpec
specs =
    record { name = codes " billing"; description = codes "bills"; auto_focus = some true }
    ∷ record { name = codes "audit"; description = []; auto_focus = none }
    ∷ record { name = codes "billing "; description = codes "bills"; auto_focus = some true }
    ∷ []

abbrev billing : Module
billing = record { name = codes "billing"; description = codes "bills"; auto_focus = some true }

abbrev audit : Module
audit = record { name = codes "audit"; description = []; auto_focus = none }

abbrev workspace : Workspace
workspace = record {
  compiled = implicit_main_module ∷ billing ∷ audit ∷ [];
  modules =
      (main_module, implicit_main_module)
      ∷ (codes "billing", billing)
      ∷ (codes "audit", audit)
      ∷ [];
  order = main_module ∷ codes "billing" ∷ codes "audit" ∷ [];
}

compiled : compile_workspace_modules specs ≡ ok workspace
unfolding compile_workspace_modules
compiled = refl

compile_workspace-declares_example :
    All
      (λ spec.
        (m : Module) × (compile_module_spec spec ≡ ok m)
        × (lookup m.name workspace.modules ≡ some m))
      specs
compile_workspace-declares_example = compile_workspace-declares specs workspace compiled
