-- ===== src/Verifier/Types.antt =====
-- crates/meow-vm-bytecode-verifier/src/structural.rs: references to types, and the cycles of struct
-- definitions.
use text.Mathlib.Text.{◌==◌ as text_eq}
use meow.Base.{
  ℕ, zero, suc, String, Bool, not, ◌&&◌, Option, none, some, List, [], ◌∷◌, ◌++◌, if◌then◌else◌,
  is_some, any, contains, length,
}
use meow.Types.Primitives.{Address}
use meow.Vm.Types.{VmType, VmTypes, FieldDef, StructDef}
use meow.Vm.Module.{Module, get_struct}
use meow.Vm.Ref.{HexCodec, parse_module_ref}
use meow.Vm.Machine.Exec.{find_dep}
use meow.Verifier.Errors.{
  VerificationError, unresolved_type_reference, cross_module_private_struct_reference,
  cyclic_struct_definition,
}

-- Sets of names
abbrev pub has_name : List String → String → Bool
has_name names n = any (λ m. text_eq m n) names

unfoldable pub without_name : String → List String → List String
without_name n [] = []
without_name n (m ∷ ms) = let rest = without_name n ms in if text_eq m n then rest else m ∷ rest

-- The state of the search for cycles.
pub record Search : Type 0 where
  pub visiting : List String
  pub visited : List String
  pub errors : List VerificationError

abbrev pub fields_of : Option StructDef → List FieldDef
fields_of none = []
fields_of (some def) = def.fields

module _ (hex : HexCodec) (m : Module) (deps : List (Address × Module)) where
  -- A struct of a module that is imported.
  abbrev pub check_dep_struct : String → String → Option StructDef → List VerificationError
  check_dep_struct context name none = unresolved_type_reference context name ∷ []
  check_dep_struct context name (some def) =
      if def.is_public then [] else cross_module_private_struct_reference context name ∷ []

  abbrev pub check_dep_ref : String → String → String → Option Module → List VerificationError
  check_dep_ref context name short none = []
  check_dep_ref context name short (some d) = check_dep_struct context name (get_struct d short)

  abbrev pub check_struct_ref : String → String → Option (Address × String) → List VerificationError
  check_struct_ref context name (some (dep, short)) =
      if contains m.imports dep
      then check_dep_ref context name short (find_dep dep deps)
      else unresolved_type_reference context name ∷ []
  check_struct_ref context name none =
      if is_some (get_struct m name) then [] else unresolved_type_reference context name ∷ []

  unfoldable mutual
    pub validate_type_ref : VmType → String → List VerificationError
    validate_type_ref (VmType.struct name) context =
        check_struct_ref context name (parse_module_ref hex name)
    validate_type_ref (VmType.tuple types) context = validate_type_refs types context
    validate_type_ref t context = []

    pub validate_type_refs : VmTypes → String → List VerificationError
    validate_type_refs VmTypes.nil context = []
    validate_type_refs (VmTypes.cons t ts) context =
        validate_type_ref t context ++ validate_type_refs ts context

  -- The name of a local struct that a field's type is.
  abbrev pub local_struct_of : VmType → Option String
  local_struct_of (VmType.struct name) =
      if not (is_some (parse_module_ref hex name)) && is_some (get_struct m name)
      then some name
      else none
  local_struct_of t = none

  -- One field, with what descends into a struct.
  abbrev pub search_field :
      (String → Search → Option Search) → Option String → Search → Option Search
  search_field descend none s = some s
  search_field descend (some name) s =
      if has_name s.visiting name
      then some (record s { errors = s.errors ++ (cyclic_struct_definition name ∷ []) })
      else if has_name s.visited name
      then some s
      else descend name s

  unfoldable pub search_fields :
      (String → Search → Option Search) → List FieldDef → Search → Option Search
  search_fields descend [] s = some s
  search_fields descend (f ∷ fs) s = elim (search_field descend (local_struct_of f.ty) s) [
    | none ↦ none
    | some t ↦ search_fields descend fs t
  ]

  -- `struct_dfs`, `none` when the fuel for the depth of the search is out.
  unfoldable pub struct_dfs : ℕ → String → Search → Option Search
  unfolding search_fields
  struct_dfs zero name s = none
  struct_dfs (suc fuel) name s =
      elim (search_fields (struct_dfs fuel) (fields_of (get_struct m name))
        (record s { visiting = name ∷ s.visiting })) [
          | none ↦ none
          | some t ↦
              some
                (record t { visiting = without_name name t.visiting; visited = name ∷ t.visited })
        ]

  unfoldable pub search_structs : ℕ → List StructDef → Search → Option Search
  unfolding struct_dfs
  search_structs fuel [] s = some s
  search_structs fuel (d ∷ ds) s =
      if has_name s.visited d.name
      then search_structs fuel ds s
      else (elim (struct_dfs fuel d.name s) [ none ↦ none | some t ↦ search_structs fuel ds t ])

  -- `check_struct_cycles`: each level of the search visits another struct.
  unfoldable pub check_struct_cycles : Option (List VerificationError)
  unfolding search_structs
  check_struct_cycles =
      elim (search_structs (suc (length m.structs)) m.structs
        (record { visiting = []; visited = []; errors = [] })) [
          | none ↦ none
          | some s ↦ some s.errors
        ]
