-- ===== src/Module/Compile.antt =====
-- What `compileWorkspaceModules` promises about the modules of a workspace.
use gess.Prelude.{
  list_beq_iff, ◌≡◌, ap, ◌∙◌, Bool, true, arith, List, [], ◌∷◌, Option, some, is_some, list_eq,
  nat_eq, All,
}
use gess.Prelude.Result.{ok, >>=-eq-ok}
use gess.Prelude.Assoc.{lookup, lookup-insert}
use gess.Module.{
  ModuleName, Module, ModuleSpec, Build, Workspace, compile_module_spec, same_module_declaration,
  same_flag, add_module, add_modules, compile_workspace_modules, initial_build, or_zero,
}

same_flag_sound : (a b : Option Bool) → same_flag a b ≡ true → a ≡ b
same_flag_sound a b h = ground arith

pub same_module_declaration_sound : (l r : Module) → same_module_declaration l r ≡ true → l ≡ r
unfolding same_module_declaration
same_module_declaration_sound l r h = ground (
  arith,
  list_beq_iff l.name r.name,
  list_beq_iff l.description r.description,
  same_flag_sound l.auto_focus r.auto_focus,
)

-- The declared names are bound.
pub record IsBuilt (b : Build) : Type 0 where
  pub bound :
      (n : ModuleName) → is_some (lookup n b.explicit) ≡ true → is_some (lookup n b.modules) ≡ true

-- `m` is declared under its name.
abbrev pub Declares : Build → Module → Type 0
Declares b m = (is_some (lookup m.name b.explicit) ≡ true) × (lookup m.name b.modules ≡ some m)

module _ (b : Build) (m : Module) {b' : Build} (added : add_module b m ≡ ok b') where
  add_module-IsBuilt : IsBuilt b → IsBuilt b'
  unfolding add_module
  add_module-IsBuilt v = record {
    bound = λ n h. ground (
      arith,
      v.bound n,
      lookup-insert m.name n m b.modules,
      lookup-insert m.name n tt b.explicit,
    );
  }

  add_module-Declares : IsBuilt b → Declares b' m
  unfolding add_module
  add_module-Declares v = ground (
    arith,
    v.bound m.name,
    lookup-insert m.name m.name m b.modules,
    lookup-insert m.name m.name tt b.explicit,
    list_beq_iff m.name m.name,
    same_module_declaration_sound (or_zero (lookup m.name b.modules)) m,
  )

  add_module-keeps : (k : Module) → Declares b k → Declares b' k
  unfolding add_module
  add_module-keeps k d = ground (
    arith,
    lookup-insert m.name k.name m b.modules,
    lookup-insert m.name k.name tt b.explicit,
    list_beq_iff m.name k.name,
  )

-- What a spec stands for in a finished build.
abbrev pub Compiles : Build → ModuleSpec → Type 0
Compiles b spec = (m : Module) × (compile_module_spec spec ≡ ok m) × Declares b m

abbrev Grows : Build → Build → Type 0
Grows b c = (k : Module) → Declares b k → Declares c k

add_modules_lem :
    (b : Build) (specs : List ModuleSpec) {c : Build}
    → IsBuilt b
    → add_modules b specs ≡ ok c
    → Grows b c × All (Compiles c) specs
unfolding add_modules
add_modules_lem b [] v h = (λ k d. ground arith, tt)
add_modules_lem b (spec ∷ specs) v h =
    let (m, compiled, rest) = >>=-eq-ok (compile_module_spec spec) _ h in
    let (b', added, others) = >>=-eq-ok (add_module b m) _ rest in
    let (grows, all) = add_modules_lem b' specs (add_module-IsBuilt b m added v) others in
    (
      λ k d. grows k (add_module-keeps b m added k d),
      ((m, compiled, grows m (add_module-Declares b m added v)), all),
    )

initial-IsBuilt : IsBuilt initial_build
unfolding lookup
initial-IsBuilt = record { bound = λ n h. ground arith }

weaken :
    (w : Workspace) (b : Build)
    → w.modules ≡ b.modules
    → (specs : List ModuleSpec) → All (Compiles b) specs
    → All
        (λ spec.
          (m : Module) × (compile_module_spec spec ≡ ok m) × (lookup m.name w.modules ≡ some m))
        specs
weaken w b e [] h = tt
weaken w b e (spec ∷ specs) h =
    let (m, compiled, declared) = h.0 in
    ((m, compiled, ap (lookup m.name) e ∙ declared.1), weaken w b e specs h.1)

-- In a workspace that compiles, every spec compiles, and its trimmed name is bound to exactly the
-- module that the spec declares, whatever specs stand before and after it.
pub compile_workspace-declares :
    (specs : List ModuleSpec) (w : Workspace)
    → compile_workspace_modules specs ≡ ok w
    → All
        (λ spec.
          (m : Module) × (compile_module_spec spec ≡ ok m) × (lookup m.name w.modules ≡ some m))
        specs
unfolding compile_workspace_modules
compile_workspace-declares specs w h =
    let (b, built, e) = >>=-eq-ok (add_modules initial_build specs) _ h in
    weaken w b (ground arith) specs (add_modules_lem initial_build specs initial-IsBuilt built).1
