-- ===== src/Verifier/Structural.antt =====
-- crates/meow-vm-bytecode-verifier/src/structural.rs: `check_module`.
use Prim.Native.String.{◌++◌ as join, len, [] as nothing, ◌∷◌ as cons_char}
use meow.Base.{
  ℕ, suc, String, Bool, true, false, not, ◌&&◌, ◌||◌, Option, none, some, List, [], ◌∷◌, ◌++◌, ltb,
  leb, is_empty, length,
}
use meow.Types.Primitives.{Address}
use meow.Vm.Types.{VmType, VmTypes, FieldDef, StructDef}
use meow.Vm.Module.{Module, Function}
use meow.Vm.Ref.{HexCodec}
use meow.Adapter.Defs.{is_letter, all_letters_or_digits}
use meow.Verifier.Errors.{
  VerificationError, CompilerConfig, invalid_identifier, duplicate_function_name,
  duplicate_struct_name, too_many_structs, too_many_functions, too_many_imports, empty_struct,
  too_many_fields, tuple_field_type, tuple_too_large, local_count_too_small, too_many_params,
  function_too_large, too_many_locals,
}
use meow.Verifier.Types.{has_name, validate_type_ref, check_struct_cycles}
use meow.Verifier.Instructions.{report_if, check_code}

-- `is_valid_identifier` with the limit of a configuration
unfoldable pub is_identifier : CompilerConfig → String → Bool
unfolding is_letter all_letters_or_digits
is_identifier cfg nothing = false
is_identifier cfg (cons_char c s) =
    leb (len (cons_char c s)) cfg.max_identifier_len && (is_letter c && all_letters_or_digits s)

-- `Type::is_valid_field_type`
abbrev pub is_valid_field_type : VmType → Bool
is_valid_field_type (VmType.tuple types) = false
is_valid_field_type t = true

unfoldable pub types_count : VmTypes → ℕ
types_count VmTypes.nil = 0
types_count (VmTypes.cons t ts) = suc (types_count ts)

-- The names that no function may have
abbrev pub is_reserved : CompilerConfig → String → Bool
is_reserved cfg name =
    has_name ("meow_vm_abort" ∷ []) name || has_name cfg.reserved_function_names name

-- The contexts of the errors
unfoldable pub quoted : String → String → String
quoted word name = join word (join " '" (join name "'"))

abbrev pub field_context : String → String → String
field_context s f = join (quoted "field" f) (join " in " (quoted "struct" s))

abbrev pub param_context : String → String → String
param_context f p = join (quoted "param" p) (join " of " (quoted "function" f))

module _ (hex : HexCodec) (m : Module) (deps : List (Address × Module)) (cfg : CompilerConfig) where
  unfoldable pub check_header : List VerificationError
  unfolding is_identifier
  check_header =
      report_if (not (is_identifier cfg m.name)) (invalid_identifier m.name "module declaration")
      ++ report_if (ltb cfg.max_structs (length m.structs))
          (too_many_structs (length m.structs) cfg.max_structs)
      ++ report_if (ltb cfg.max_functions (length m.functions))
          (too_many_functions (length m.functions) cfg.max_functions)
      ++ report_if (ltb cfg.max_imports (length m.imports))
          (too_many_imports (length m.imports) cfg.max_imports)

  unfoldable pub check_field : String → FieldDef → List VerificationError
  unfolding is_identifier validate_type_ref quoted
  check_field s f =
      report_if (not (is_identifier cfg f.name))
        (invalid_identifier f.name (join "field in " (quoted "struct" s)))
      ++ report_if (not (is_valid_field_type f.ty)) (tuple_field_type s f.name)
      ++ validate_type_ref hex m deps f.ty (field_context s f.name)

  unfoldable pub check_struct_fields : String → List FieldDef → List VerificationError
  unfolding check_field
  check_struct_fields s [] = []
  check_struct_fields s (f ∷ fs) = check_field s f ++ check_struct_fields s fs

  -- A struct, with the names of the structs before it.
  unfoldable pub check_struct : List String → StructDef → List VerificationError
  unfolding is_identifier check_struct_fields
  check_struct seen s =
      report_if (not (is_identifier cfg s.name)) (invalid_identifier s.name "struct definition")
      ++ report_if (has_name seen s.name) (duplicate_struct_name s.name)
      ++ report_if (is_empty s.fields) (empty_struct s.name)
      ++ report_if (ltb cfg.max_fields (length s.fields))
          (too_many_fields s.name (length s.fields) cfg.max_fields)
      ++ check_struct_fields s.name s.fields

  unfoldable pub check_structs : List String → List StructDef → List VerificationError
  unfolding check_struct
  check_structs seen [] = []
  check_structs seen (s ∷ ss) = check_struct seen s ++ check_structs (s.name ∷ seen) ss

  unfoldable pub check_params : String → List (String × VmType) → List VerificationError
  unfolding validate_type_ref quoted
  check_params f [] = []
  check_params f ((name, t) ∷ ps) =
      validate_type_ref hex m deps t (param_context f name) ++ check_params f ps

  abbrev pub check_tuple_arity : String → VmType → List VerificationError
  check_tuple_arity f (VmType.tuple types) =
      report_if (ltb cfg.max_tuple_elements (types_count types))
        (tuple_too_large f (types_count types) cfg.max_tuple_elements)
  check_tuple_arity f t = []

  abbrev pub check_return : String → Option VmType → List VerificationError
  check_return f none = []
  check_return f (some t) =
      validate_type_ref hex m deps t (join "return type of " (quoted "function" f))
      ++ check_tuple_arity f t

  -- The limits of a function
  unfoldable pub check_limits : Function → List VerificationError
  check_limits f =
      report_if (ltb f.local_count (length f.params))
        (local_count_too_small f.name f.local_count (length f.params))
      ++ report_if (ltb cfg.max_params (length f.params))
          (too_many_params f.name (length f.params) cfg.max_params)
      ++ report_if (ltb cfg.max_fun_code_size (length f.code))
          (function_too_large f.name (length f.code) cfg.max_fun_code_size)
      ++ report_if (ltb cfg.max_locals f.local_count)
          (too_many_locals f.name f.local_count cfg.max_locals)

  -- A function but for its code, with the names of the functions before it.
  unfoldable pub check_signature : List String → Function → List VerificationError
  unfolding is_identifier validate_type_ref quoted types_count check_params check_limits
  check_signature seen f =
      report_if (not (is_identifier cfg f.name) || is_reserved cfg f.name)
        (invalid_identifier f.name "function definition")
      ++ report_if (has_name seen f.name) (duplicate_function_name f.name)
      ++ check_params f.name f.params
      ++ check_return f.name f.return_type
      ++ check_limits f

  unfoldable pub check_function : List String → Function → List VerificationError
  unfolding check_signature check_code
  check_function seen f = check_signature seen f ++ check_code hex m deps cfg f 0 f.code

  unfoldable pub check_functions : List String → List Function → List VerificationError
  unfolding check_function
  check_functions seen [] = []
  check_functions seen (f ∷ fs) = check_function seen f ++ check_functions (f.name ∷ seen) fs

  -- All errors but those of functions, with the errors of the search for cycles.
  unfoldable pub check_definitions : List VerificationError → List VerificationError
  unfolding check_header check_structs
  check_definitions cycles = check_header ++ check_structs [] m.structs ++ cycles

  -- `check_module`, `none` when the fuel of the search for cycles is out.
  unfoldable pub check_module_structure : Option (List VerificationError)
  unfolding check_definitions check_functions check_struct_cycles
  check_module_structure = elim (check_struct_cycles hex m deps) [
    | none ↦ none
    | some cycles ↦ some (check_definitions cycles ++ check_functions [] m.functions)
  ]
