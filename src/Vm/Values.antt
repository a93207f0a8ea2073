-- ===== src/Vm/Values.antt =====
-- The operations on values: `Value` in crates/meow-vm-types/src/types.rs, and the helpers on values
-- at the end of crates/meow-vm/src/lib.rs.
use text.Mathlib.Text.{◌==◌ as text_eq}
use meow.Base.{
  ℕ, ◌+◌, String, Bool, true, false, not, ◌&&◌, ◌||◌, Option, none, some, List, [], ◌∷◌, ◌==◌, ltb,
  if◌then◌else◌, is_some, Outcome, ok, err, panic, ◌>>=◌, ok_or,
}
use meow.Types.Primitives.{Address}
use meow.Vm.Types.{
  VmType, VmTypes, Value, Values, Fields, bool, u64, address, str, void, struct, tuple, nil, cons,
  end, field,
}
use meow.Vm.Errors.{
  VmError, type_error, expected_integer, expected_bool, load_field_expected_struct,
  store_field_expected_struct, store_field_empty_path, store_field_terminal, undefined_field,
  linear_field_overwrite, arithmetic_overflow,
}
use meow.Vm.Ref.{HexCodec, parse_module_ref}

unfoldable mutual
  pub is_linear : Value → Bool
  is_linear (bool b) = false
  is_linear (u64 n) = false
  is_linear (address a) = false
  is_linear (str s) = false
  is_linear void = false
  is_linear (struct name fields) = true
  is_linear (tuple values) = any_linear values

  pub any_linear : Values → Bool
  any_linear nil = false
  any_linear (cons v vs) = is_linear v || any_linear vs

-- `derive(PartialEq)` on values
unfoldable mutual
  pub value_eq : Value → Value → Bool
  value_eq (bool true) (bool c) = c
  value_eq (bool false) (bool c) = not c
  value_eq (u64 m) (u64 n) = m == n
  value_eq (address a) (address b) = a == b
  value_eq (str s) (str t) = text_eq s t
  value_eq void void = true
  value_eq (struct n fs) (struct m gs) = text_eq n m && fields_eq fs gs
  value_eq (tuple vs) (tuple ws) = values_eq vs ws
  value_eq _ _ = false

  pub values_eq : Values → Values → Bool
  values_eq nil nil = true
  values_eq (cons v vs) (cons w ws) = value_eq v w && values_eq vs ws
  values_eq _ _ = false

  pub fields_eq : Fields → Fields → Bool
  fields_eq end end = true
  fields_eq (field n v fs) (field m w gs) = text_eq n m && (value_eq v w && fields_eq fs gs)
  fields_eq _ _ = false

-- `derive(PartialEq)` on types
unfoldable mutual
  pub vm_type_eq : VmType → VmType → Bool
  vm_type_eq VmType.bool VmType.bool = true
  vm_type_eq VmType.u64 VmType.u64 = true
  vm_type_eq VmType.address VmType.address = true
  vm_type_eq VmType.str VmType.str = true
  vm_type_eq (VmType.struct n) (VmType.struct m) = text_eq n m
  vm_type_eq (VmType.tuple ts) (VmType.tuple us) = vm_types_eq ts us
  vm_type_eq _ _ = false

  pub vm_types_eq : VmTypes → VmTypes → Bool
  vm_types_eq VmTypes.nil VmTypes.nil = true
  vm_types_eq (VmTypes.cons t ts) (VmTypes.cons u us) = vm_type_eq t u && vm_types_eq ts us
  vm_types_eq _ _ = false

unfoldable pub type_name : Value → String
type_name (bool b) = "bool"
type_name (u64 n) = "u64"
type_name (address a) = "address"
type_name (str s) = "str"
type_name void = "void"
type_name (struct name fields) = name
type_name (tuple values) = "tuple"

unfoldable pub as_u64 : Value → Option ℕ
as_u64 (u64 n) = some n
as_u64 _ = none

unfoldable pub as_bool : Value → Option Bool
as_bool (bool b) = some b
as_bool _ = none

unfoldable pub into_str : Value → Option String
into_str (str s) = some s
into_str _ = none

unfoldable pub as_address : Value → Option Address
as_address (address a) = some a
as_address _ = none

-- `fields.iter().find(|(n, _)| n == name)`
unfoldable pub find_field : String → Fields → Option Value
find_field name end = none
find_field name (field n v fs) = if text_eq n name then some v else find_field name fs

-- `Value::field`
unfoldable pub field_of : String → Value → Option Value
field_of name (struct n fields) = find_field name fields
field_of name _ = none

-- The value of a field that `find` finds, replaced in place.
unfoldable pub set_field : String → Value → Fields → Fields
set_field name w end = end
set_field name w (field n v fs) =
    let rest = set_field name w fs in if text_eq n name then field n w fs else field n v rest

-- The operand of an arithmetic or Boolean instruction.
unfoldable pub integer : Value → Outcome VmError ℕ
integer v = ok_or (as_u64 v) (type_error (expected_integer (type_name v)))

unfoldable pub boolean : Value → Outcome VmError Bool
boolean v = ok_or (as_bool v) (type_error (expected_bool (type_name v)))

unfoldable pub arith_op : Value → Value → (ℕ → ℕ → Option ℕ) → Outcome VmError Value
unfolding integer
arith_op l r op = do
  a ← integer l
  b ← integer r
  c ← ok_or (op a b) arithmetic_overflow
  ok (u64 c)

unfoldable pub cmp_values : Value → Value → Outcome VmError Bool
unfolding integer
cmp_values l r = do a ← integer l; b ← integer r; ok (ltb a b)

-- The loop of `read_field_path`, at step `i` of the path.
unfoldable pub read_path : ℕ → Value → List String → Outcome VmError Value
read_path i v [] = ok v
read_path i (struct name fields) (f ∷ fs) = elim (find_field f fields) [
  | some v ↦ read_path (i + 1) v fs
  | none ↦ err (undefined_field name f)
]
read_path i v (f ∷ fs) = err (type_error (load_field_expected_struct i (type_name v)))

unfoldable pub read_field_path : Value → List String → Outcome VmError Value
unfolding read_path
read_field_path v path = read_path 0 v path

-- The write to the last field of the path of `write_field_path`.
unfoldable pub write_terminal : String → Value → Value → Outcome VmError Value
write_terminal f w (struct name fields) = elim (find_field f fields) [
  | some old ↦
      if is_linear old
      then err (linear_field_overwrite f)
      else ok (struct name (set_field f w fields))
  | none ↦ err (undefined_field name f)
]
write_terminal f w v = err (type_error (store_field_terminal (type_name v)))

-- `write_field_path` at step `i`: the value with the terminal field replaced.
unfoldable pub write_path : ℕ → Value → String → List String → Value → Outcome VmError Value
write_path i v f [] w = write_terminal f w v
write_path i (struct name fields) f (g ∷ gs) w = elim (find_field f fields) [
  | some v ↦ write_path (i + 1) v g gs w >>= λ v'. ok (struct name (set_field f v' fields))
  | none ↦ err (undefined_field name f)
]
write_path i v f (g ∷ gs) w = err (type_error (store_field_expected_struct i (type_name v)))

unfoldable pub write_field_path : Value → List String → Value → Outcome VmError Value
write_field_path v [] w = err (type_error store_field_empty_path)
write_field_path v (f ∷ fs) w = write_path 0 v f fs w

-- `linear_type_name`, whose last arm is `unreachable!`
unfoldable pub linear_name : Value → Outcome VmError String
linear_name (struct name fields) = ok name
linear_name (tuple values) = ok "tuple"
linear_name _ = panic

unfoldable pub linear_type_name : Value → Value → Outcome VmError String
linear_type_name l r = linear_name (if is_linear l then l else r)

module _ (hex : HexCodec) where
  unfoldable mutual
    pub check_struct_qualified : Value → Bool
    check_struct_qualified (struct name fields) =
        is_some (parse_module_ref hex name) && check_fields_qualified fields
    check_struct_qualified _ = true

    pub check_fields_qualified : Fields → Bool
    check_fields_qualified end = true
    check_fields_qualified (field n v fs) = check_struct_qualified v && check_fields_qualified fs
