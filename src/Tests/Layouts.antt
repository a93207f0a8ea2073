-- ===== src/Tests/Layouts.antt =====
-- Structs whose layout the adapter's verifier accepts and rejects, and the theorems on it at these.
use meow.Base.{ℕ, ◌≡◌, refl, true, false, none, [], ◌∷◌, List}
use meow.Vm.Types.{VmType, FieldDef, StructDef}
use meow.Vm.Module.{Module}
use meow.Vm.Ref.{parse_module_ref, strip_at, split_once, from_str}
use meow.Vm.Values.{vm_type_eq}
use meow.Adapter.Context.{id_type}
use meow.Adapter.Layout.{
  check_object_layouts, is_object_struct, id_field_not_first, object_as_field_type,
}
use meow.Adapter.Placed.{
  Refers, to_local, check_object_layouts-no_nested, check_object_layouts-first,
}
use meow.Tests.Machine.{codec}

abbrev id_field : FieldDef
id_field = record { name = "id"; ty = id_type }

abbrev bowl_field : FieldDef
bowl_field = record { name = "bowl"; ty = VmType.struct "Bowl" }

abbrev cat : StructDef
cat = record { name = "Cat"; fields = id_field ∷ bowl_field ∷ []; is_public = true }

abbrev bowl : StructDef
bowl = record {
  name = "Bowl";
  fields = record { name = "size"; ty = VmType.u64 } ∷ [];
  is_public = true;
}

-- An identifier under another name.
abbrev token : StructDef
token = record {
  name = "Token";
  fields = record { name = "key"; ty = id_type } ∷ [];
  is_public = true;
}

abbrev with_structs : List StructDef → Module
with_structs structs = record { name = "pets"; imports = []; structs = structs; functions = [] }

abbrev pets : Module
pets = with_structs (cat ∷ bowl ∷ [])

accepted : check_object_layouts codec pets [] ≡ []
unfolding check_object_layouts vm_type_eq parse_module_ref strip_at split_once from_str
accepted = refl

-- A first field of another name is let through, and its struct is no object.
passes : check_object_layouts codec (with_structs (token ∷ [])) [] ≡ []
unfolding check_object_layouts vm_type_eq parse_module_ref strip_at split_once from_str
passes = refl

no_object : is_object_struct token ≡ false
unfolding is_object_struct
no_object = refl

abbrev house : StructDef
house = record {
  name = "House";
  fields = record { name = "cat"; ty = VmType.struct "Cat" } ∷ id_field ∷ [];
  is_public = true;
}

rejected :
    check_object_layouts codec (with_structs (cat ∷ bowl ∷ house ∷ [])) []
    ≡ object_as_field_type "House" "cat" "Cat" ∷ id_field_not_first "House" "id" ∷ []
unfolding check_object_layouts vm_type_eq parse_module_ref strip_at split_once from_str
rejected = refl

unqualified : parse_module_ref codec "Bowl" ≡ none
unfolding parse_module_ref strip_at
unqualified = refl

abbrev refers : Refers codec pets [] "Bowl" bowl
refers = to_local "Bowl" 1 bowl unqualified refl refl

check_object_layouts-no_nested_example : is_object_struct bowl ≡ false
check_object_layouts-no_nested_example =
    check_object_layouts-no_nested codec pets [] 0 1 cat bowl bowl_field "Bowl" accepted refl refl
      refl refers

abbrev position : ℕ
position = 0

check_object_layouts-first_example : position ≡ 0
check_object_layouts-first_example =
    check_object_layouts-first codec pets [] 0 position cat id_field accepted refl refl refl
