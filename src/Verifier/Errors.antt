-- ===== src/Verifier/Errors.antt =====
-- crates/meow-vm-bytecode-verifier/src/error.rs: what the verifier reports, and the compiler's
-- limits (crates/meow-vm-types/src/config.rs) that it checks.
use meow.Base.{ℕ, String, List, []}
use meow.Base.Int.{ℤ}

pub data VerificationError : Type 0 where
  invalid_identifier : String → String → VerificationError
  duplicate_function_name duplicate_struct_name : String → VerificationError
  too_many_structs too_many_functions too_many_imports : ℕ → ℕ → VerificationError
  empty_struct : String → VerificationError
  too_many_fields : String → ℕ → ℕ → VerificationError
  cyclic_struct_definition : String → VerificationError
  tuple_field_type : String → String → VerificationError
  tuple_too_large local_count_too_small too_many_params : String → ℕ → ℕ → VerificationError
  function_too_large too_many_locals : String → ℕ → ℕ → VerificationError
  backward_jump : String → ℕ → ℤ → VerificationError
  jump_out_of_bounds : String → ℕ → ℕ → ℕ → VerificationError
  slot_out_of_range : String → ℕ → ℕ → ℕ → VerificationError
  empty_field_path : String → ℕ → VerificationError
  unresolved_type_reference : String → String → VerificationError
  undefined_struct_type struct_field_mismatch : String → ℕ → String → VerificationError
  cross_module_call_to_private_function : String → ℕ → String → VerificationError
  cross_module_struct_access : String → ℕ → String → VerificationError
  cross_module_private_struct_reference : String → String → VerificationError
  cross_module_private_field_read cross_module_field_write :
      String → ℕ → String → String → VerificationError
  stack_underflow : String → ℕ → String → VerificationError
  type_mismatch : String → ℕ → String → String → VerificationError
  stack_merge_conflict : String → ℕ → VerificationError
  liveness_merge_conflict slot_type_merge_conflict : String → ℕ → ℕ → VerificationError
  return_type_mismatch : String → String → String → VerificationError
  missing_return : String → VerificationError
  struct_typed_field_loaded struct_typed_field_written : String → ℕ → String → VerificationError
  get_field_drops_linear_field : String → ℕ → String → String → VerificationError
  use_after_move : String → ℕ → ℕ → VerificationError
  pop_on_struct dup_on_struct eq_on_linear_type : String → ℕ → VerificationError
  slot_overwrite : String → ℕ → ℕ → VerificationError
  unconsumed_struct : String → ℕ → VerificationError
  unconsumed_struct_on_stack : String → VerificationError
  undefined_function : String → ℕ → String → VerificationError
  native_arg_count_mismatch : String → ℕ → String → ℕ → ℕ → VerificationError
  native_arg_type_mismatch : String → ℕ → String → ℕ → String → String → VerificationError

pub record CompilerConfig : Type 0 where
  pub max_identifier_len : ℕ
  pub max_structs : ℕ
  pub max_functions : ℕ
  pub max_fields : ℕ
  pub max_params : ℕ
  pub max_tuple_elements : ℕ
  pub max_locals : ℕ
  pub max_fun_code_size : ℕ
  pub max_imports : ℕ
  pub max_dep_modules : ℕ
  pub reserved_function_names : List String

unfoldable pub default_compiler_config : CompilerConfig
default_compiler_config = record {
  max_identifier_len = 128;
  max_structs = 128;
  max_functions = 256;
  max_fields = 32;
  max_params = 16;
  max_tuple_elements = 16;
  max_locals = 255;
  max_fun_code_size = 65536;
  max_imports = 64;
  max_dep_modules = 64;
  reserved_function_names = [];
}
