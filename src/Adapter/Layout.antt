-- ===== src/Adapter/Layout.antt =====
-- crates/meow-vm-adapter/src/bytecode_verifier: the layout of objects in the structs of a module.
use text.Mathlib.Text.{◌==◌ as text_eq}
use meow.Base.{
  ℕ, suc, String, Bool, true, false, not, ◌&&◌, ◌||◌, Option, none, some, List, [], ◌∷◌, ◌++◌, ◌==◌,
}
use meow.Types.Primitives.{Address}
use meow.Vm.Types.{VmType, FieldDef, StructDef}
use meow.Vm.Module.{Module, get_struct}
use meow.Vm.Ref.{HexCodec, parse_module_ref}
use meow.Vm.Values.{vm_type_eq}
use meow.Vm.Machine.Exec.{find_dep}
use meow.Adapter.Defs.{id_field_name}
use meow.Adapter.Context.{id_type}

pub data BytecodeVerifierError : Type 0 where
  id_field_not_first : String → String → BytecodeVerifierError
  object_as_field_type : String → String → String → BytecodeVerifierError
  object_id_not_fresh : String → ℕ → String → BytecodeVerifierError
  transfer_non_object_struct : String → ℕ → String → BytecodeVerifierError

abbrev pub reported : Bool → BytecodeVerifierError → List BytecodeVerifierError
reported true e = e ∷ []
reported false e = []

abbrev pub starts_with_id : List FieldDef → Bool
starts_with_id [] = false
starts_with_id (f ∷ fs) = text_eq f.name id_field_name && vm_type_eq f.ty id_type

unfoldable pub is_object_struct : StructDef → Bool
is_object_struct def = starts_with_id def.fields

-- `object_types.contains(name)`
unfoldable pub is_object_type : List StructDef → String → Bool
unfolding is_object_struct
is_object_type [] name = false
is_object_type (s ∷ ss) name = (is_object_struct s && text_eq s.name name) || is_object_type ss name

module _ (hex : HexCodec) (m : Module) (deps : List (Address × Module)) where
  abbrev pub is_object_def : Option StructDef → Bool
  is_object_def none = false
  is_object_def (some def) = is_object_struct def

  abbrev pub is_object_of : String → Option Module → Bool
  is_object_of short none = false
  is_object_of short (some d) = is_object_def (get_struct d short)

  abbrev pub is_object_as : String → Option (Address × String) → Bool
  is_object_as name (some (dep, short)) = is_object_of short (find_dep dep deps)
  is_object_as name none = is_object_type m.structs name

  abbrev pub has_object_type : VmType → Bool
  has_object_type (VmType.struct name) = is_object_as name (parse_module_ref hex name)
  has_object_type t = false

  abbrev pub type_name_of : VmType → String
  type_name_of (VmType.struct name) = name
  type_name_of t = ""

  -- The field at a position of a struct.
  unfoldable pub check_layout_field : String → ℕ → FieldDef → List BytecodeVerifierError
  unfolding is_object_struct is_object_type
  check_layout_field s i f =
      reported (vm_type_eq f.ty id_type && not (i == 0)) (id_field_not_first s f.name)
      ++ reported (has_object_type f.ty) (object_as_field_type s f.name (type_name_of f.ty))

  unfoldable pub check_layout_fields : String → ℕ → List FieldDef → List BytecodeVerifierError
  unfolding check_layout_field
  check_layout_fields s i [] = []
  check_layout_fields s i (f ∷ fs) = check_layout_field s i f ++ check_layout_fields s (suc i) fs

  unfoldable pub check_layouts : List StructDef → List BytecodeVerifierError
  unfolding check_layout_fields
  check_layouts [] = []
  check_layouts (s ∷ ss) = check_layout_fields s.name 0 s.fields ++ check_layouts ss

  unfoldable pub check_object_layouts : List BytecodeVerifierError
  unfolding check_layouts
  check_object_layouts = check_layouts m.structs
