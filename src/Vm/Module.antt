-- ===== src/Vm/Module.antt =====
-- crates/meow-vm-types/src/module.rs: compiled functions and modules.
use meow.Base.{ℕ, String, Bool, Option, List, find}
use text.Mathlib.Text.{◌==◌ as text_eq}
use meow.Types.Primitives.{Address}
use meow.Vm.Types.{VmType, StructDef}
use meow.Vm.Bytecode.{Instruction}

pub record Function : Type 0 where
  pub name : String
  pub is_public : Bool
  pub params : List (String × VmType)
  pub return_type : Option VmType
  pub local_count : ℕ
  pub code : List Instruction

pub record Module : Type 0 where
  pub name : String
  pub imports : List Address
  pub structs : List StructDef
  pub functions : List Function

unfoldable pub get_struct : Module → String → Option StructDef
get_struct m name = find (λ s. text_eq s.name name) m.structs

unfoldable pub get_function : Module → String → Option Function
get_function m name = find (λ f. text_eq f.name name) m.functions
