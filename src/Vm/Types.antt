-- ===== src/Vm/Types.antt =====
-- crates/meow-vm-types/src/types.rs and natives.rs: types, values and struct schemas.
use meow.Base.{ℕ, String, Bool, List}
use meow.Types.Primitives.{Address}

-- `VmType` is the source's `Type`; a name of its own, since `Type` is the universe here.
mutual
  pub data VmType : Type 0 where
    bool u64 address str : VmType
    struct : String → VmType
    tuple : VmTypes → VmType

  pub data VmTypes : Type 0 where
    nil : VmTypes
    cons : VmType → VmTypes → VmTypes

mutual
  pub data Value : Type 0 where
    bool : Bool → Value
    u64 : ℕ → Value
    address : Address → Value
    str : String → Value
    void : Value
    struct : String → Fields → Value
    tuple : Values → Value

  pub data Values : Type 0 where
    nil : Values
    cons : Value → Values → Values

  pub data Fields : Type 0 where
    end : Fields
    field : String → Value → Fields → Fields

pub record FieldDef : Type 0 where
  pub name : String
  pub ty : VmType

pub record StructDef : Type 0 where
  pub name : String
  pub fields : List FieldDef
  pub is_public : Bool
