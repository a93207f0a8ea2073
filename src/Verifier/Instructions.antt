-- ===== src/Verifier/Instructions.antt =====
-- crates/meow-vm-bytecode-verifier/src/structural.rs: the checks of one instruction.
use text.Mathlib.Text.{◌==◌ as text_eq}
use meow.Base.{
  ℕ, zero, suc, ◌+◌, String, Bool, true, false, not, ◌&&◌, Option, none, some, List, [], ◌∷◌, ◌++◌,
  ltb, leb, if◌then◌else◌, is_some, is_empty, length,
}
use meow.Base.Int.{ℤ, pos, negsuc}
use meow.Types.Primitives.{Address}
use meow.Vm.Types.{FieldDef, StructDef}
use meow.Vm.Bytecode.{
  Instruction, load, store, load_field, store_field, jump, jump_if, jump_if_not, new_struct,
  unpack_struct, call, make_tuple, unpack_tuple,
}
use meow.Vm.Module.{Module, Function, get_struct, get_function}
use meow.Vm.Ref.{HexCodec, parse_module_ref}
use meow.Vm.Machine.Exec.{find_dep}
use meow.Verifier.Errors.{
  VerificationError, CompilerConfig, slot_out_of_range, empty_field_path, backward_jump,
  jump_out_of_bounds, cross_module_struct_access, undefined_struct_type, struct_field_mismatch,
  cross_module_call_to_private_function, tuple_too_large,
}

abbrev pub report_if : Bool → VerificationError → List VerificationError
report_if true e = e ∷ []
report_if false e = []

-- The names of a struct's fields against those of an instruction.
unfoldable pub same_names : List FieldDef → List String → Bool
same_names [] [] = true
same_names (f ∷ fs) (n ∷ ns) = text_eq f.name n && same_names fs ns
same_names _ _ = false

module _ (f : Function) where
  unfoldable pub check_slot : ℕ → ℕ → List VerificationError
  check_slot pc slot =
      report_if (leb f.local_count slot) (slot_out_of_range f.name pc slot f.local_count)

  -- The offset of a jump must be positive, and its target in the code or at its end.
  unfoldable pub check_jump : ℕ → ℤ → List VerificationError
  check_jump pc (pos zero) = backward_jump f.name pc (pos zero) ∷ []
  check_jump pc (pos (suc n)) =
      report_if (ltb (length f.code) (pc + suc n))
        (jump_out_of_bounds f.name pc (pc + suc n) (length f.code))
  check_jump pc (negsuc n) = backward_jump f.name pc (negsuc n) ∷ []

module _ (hex : HexCodec) (m : Module) (deps : List (Address × Module)) (cfg : CompilerConfig)
    (f : Function) where
  abbrev pub check_fields : ℕ → String → List String → Option StructDef → List VerificationError
  check_fields pc name names none = undefined_struct_type f.name pc name ∷ []
  check_fields pc name names (some def) =
      report_if (not (same_names def.fields names)) (struct_field_mismatch f.name pc name)

  unfoldable pub check_struct_use : ℕ → String → List String → List VerificationError
  check_struct_use pc name names =
      if is_some (parse_module_ref hex name)
      then cross_module_struct_access f.name pc name ∷ []
      else check_fields pc name names (get_struct m name)

  abbrev pub check_callee : ℕ → String → Option Function → List VerificationError
  check_callee pc name none = []
  check_callee pc name (some callee) =
      report_if (not callee.is_public) (cross_module_call_to_private_function f.name pc name)

  abbrev pub check_callee_in : ℕ → String → String → Option Module → List VerificationError
  check_callee_in pc name short none = []
  check_callee_in pc name short (some d) = check_callee pc name (get_function d short)

  abbrev pub check_call_ref : ℕ → String → Option (Address × String) → List VerificationError
  check_call_ref pc name none = []
  check_call_ref pc name (some (dep, short)) = check_callee_in pc name short (find_dep dep deps)

  abbrev pub check_tuple_size : ℕ → List VerificationError
  check_tuple_size n =
      report_if (ltb cfg.max_tuple_elements n) (tuple_too_large f.name n cfg.max_tuple_elements)

  unfoldable pub check_instruction : ℕ → Instruction → List VerificationError
  unfolding check_slot check_jump check_struct_use
  check_instruction pc (load slot) = check_slot f pc slot
  check_instruction pc (store slot) = check_slot f pc slot
  check_instruction pc (load_field slot path) =
      check_slot f pc slot ++ report_if (is_empty path) (empty_field_path f.name pc)
  check_instruction pc (store_field slot path) =
      check_slot f pc slot ++ report_if (is_empty path) (empty_field_path f.name pc)
  check_instruction pc (jump offset) = check_jump f pc offset
  check_instruction pc (jump_if offset) = check_jump f pc offset
  check_instruction pc (jump_if_not offset) = check_jump f pc offset
  check_instruction pc (new_struct name names) = check_struct_use pc name names
  check_instruction pc (unpack_struct name names) = check_struct_use pc name names
  check_instruction pc (call name) = check_call_ref pc name (parse_module_ref hex name)
  check_instruction pc (make_tuple n) = check_tuple_size n
  check_instruction pc (unpack_tuple n) = check_tuple_size n
  check_instruction pc i = []

  -- The instructions from position `pc` on.
  unfoldable pub check_code : ℕ → List Instruction → List VerificationError
  unfolding check_instruction
  check_code pc [] = []
  check_code pc (i ∷ is) = check_instruction pc i ++ check_code (suc pc) is
