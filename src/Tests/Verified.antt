-- ===== src/Tests/Verified.antt =====
-- Modules that the structural phase of the bytecode verifier accepts and rejects, and the theorems on it
-- applied to them.
use meow.Base.{◌≡◌, refl, true, none, some, List, [], ◌∷◌, Every}
use meow.Base.Int.{pos}
use meow.Vm.Types.{VmType, StructDef, bool}
use meow.Vm.Bytecode.{push_u64, jump, jump_if, return_, load, store, store_field}
use meow.Vm.Module.{Module, Function, get_struct, get_function}
use meow.Vm.Gas.{default_schedule}
use meow.Vm.Ref.{parse_module_ref, strip_at}
use meow.Vm.Natives.{meow_vm_abort_entry, default_config}
use meow.Vm.Machine.Frame.{Frame}
use meow.Vm.Machine.Exec.{Vm, exec_frame}
use meow.Adapter.Defs.{is_letter_or_digit}
use meow.Tests.Machine.{codec}
use meow.Verifier.Errors.{
  VerificationError, default_compiler_config, cyclic_struct_definition, invalid_identifier,
  backward_jump, slot_out_of_range, empty_field_path, jump_out_of_bounds,
}
use meow.Verifier.Types.{check_struct_cycles}
use meow.Verifier.Cycles.{check_struct_cycles-ends}
use meow.Verifier.Structural.{check_module_structure}
use meow.Verifier.Forward.{Ahead, exec_frame-Ahead}

abbrev pick : Function
pick = record {
  name = "pick";
  is_public = true;
  params = ("b", VmType.bool) ∷ [];
  return_type = some VmType.u64;
  local_count = 1;
  code = load 0 ∷ jump_if (pos 3) ∷ push_u64 1 ∷ return_ ∷ push_u64 2 ∷ return_ ∷ [];
}

abbrev link : StructDef
link = record {
  name = "Link";
  fields = record { name = "count"; ty = VmType.u64 } ∷ [];
  is_public = true;
}

abbrev chain : StructDef
chain = record {
  name = "Chain";
  fields = record { name = "first"; ty = VmType.struct "Link" } ∷ [];
  is_public = true;
}

abbrev good : Module
good = record { name = "good"; imports = []; structs = chain ∷ link ∷ []; functions = pick ∷ [] }

-- A struct that holds itself, and a function with a reserved name whose code breaks the rules.
abbrev bad : Module
bad = record {
  name = "bad";
  imports = [];
  structs =
      record {
        name = "Loop";
        fields = record { name = "next"; ty = VmType.struct "Loop" } ∷ [];
        is_public = true;
      }
      ∷ [];
  functions =
      record {
        name = "meow_vm_abort";
        is_public = true;
        params = [];
        return_type = none;
        local_count = 1;
        code = store 1 ∷ jump (pos 0) ∷ store_field 0 [] ∷ jump (pos 2) ∷ [];
      }
      ∷ [];
}

accepts : check_module_structure codec good [] default_compiler_config ≡ some []
unfolding check_module_structure get_struct parse_module_ref strip_at default_compiler_config
    is_letter_or_digit
accepts = refl

rejects :
    check_module_structure codec bad [] default_compiler_config
    ≡ some (
        cyclic_struct_definition "Loop"
        ∷ invalid_identifier "meow_vm_abort" "function definition"
        ∷ slot_out_of_range "meow_vm_abort" 0 1 1
        ∷ backward_jump "meow_vm_abort" 1 (pos 0)
        ∷ empty_field_path "meow_vm_abort" 2
        ∷ jump_out_of_bounds "meow_vm_abort" 3 5 4
        ∷ [])
unfolding check_module_structure get_struct parse_module_ref strip_at default_compiler_config
    is_letter_or_digit
rejects = refl

abbrev vm : Vm (Unit {0})
vm = record {
  module_ = good;
  module_addr = 1;
  deps = [];
  natives = meow_vm_abort_entry ∷ [];
  gas_schedule = default_schedule;
  config = default_config;
}

abbrev frame : Frame
frame = record { locals = some (bool true) ∷ []; stack = bool true ∷ []; pc = 2; code = pick.code }

exec_frame-Ahead_example :
    Every (λ g. Ahead 1 pick.code g) (exec_frame codec vm good 1 (jump_if (pos 3)) frame)
unfolding get_function
exec_frame-Ahead_example =
    exec_frame-Ahead codec vm good [] default_compiler_config 1 "pick" pick (jump_if (pos 3)) frame
      1 accepts refl refl refl refl

check_struct_cycles-ends_example :
    (es : List VerificationError) × (check_struct_cycles codec bad [] ≡ some es)
check_struct_cycles-ends_example = check_struct_cycles-ends codec bad []
