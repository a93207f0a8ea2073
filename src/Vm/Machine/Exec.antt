-- ===== src/Vm/Machine/Exec.antt =====
-- crates/meow-vm/src/lib.rs: the machine, and what one instruction does to a frame (the `match` of
-- `call_inner`). A call asks the loop to run a function or a native.
use text.Mathlib.Text.{◌==◌ as text_eq}
use meow.Base.{
  ℕ, ◌+◌, ◌-◌, ◌*◌, ◌/◌, ◌%◌, ◌^◌, String, Bool, true, false, not, ◌&&◌, ◌||◌, Option, none, some,
  List, [], ◌∷◌, ◌==◌, ltb, leb, if◌then◌else◌, Outcome, ok, err, ◌>>=◌, ◌>>◌, reject_if, guard,
  ok_or, find, length,
}
use meow.Base.Int.{ℤ}
use meow.Types.Primitives.{Address}
use meow.Vm.Types.{Value, Fields, StructDef, bool, u64, address, str, struct, tuple, end, field}
use meow.Vm.Bytecode.{
  Instruction, push_bool, push_u64, push_address, push_str, load, store, load_field, store_field,
  add, sub, mul, div, mod_, eq, ne, lt, le, gt, ge, and, or, new_struct, get_field, unpack_struct,
  dup, jump, jump_if, jump_if_not, call, return_, make_tuple, unpack_tuple,
}
use meow.Vm.Module.{Module, Function, get_struct, get_function}
use meow.Vm.Ref.{HexCodec, parse_module_ref, qualify}
use meow.Vm.Errors.{
  VmError, type_error, expected_struct, unpack_expected_struct, unpack_expected_tuple,
  unpack_tuple_size, division_by_zero, eq_on_linear_type, undefined_field, undefined_function,
  undefined_struct, private_function,
}
use meow.Vm.Gas.{GasSchedule}
use meow.Vm.Natives.{NativeFnEntry, VmConfig}
use meow.Vm.Values.{
  is_linear, value_eq, type_name, as_u64, find_field, boolean, arith_op, cmp_values,
  linear_type_name,
}
use meow.Vm.Machine.Frame.{
  Frame, push, top, pop, peek, pop_args, load_slot, store_slot, load_field_path, store_field_path,
  jump_by, to_values, values_count, push_values,
}

pub record Vm {ℓ} (S : Type ℓ) : Type ℓ where
  pub module_ : Module
  pub module_addr : Address
  pub deps : List (Address × Module)
  pub natives : List (NativeFnEntry S)
  pub gas_schedule : GasSchedule
  pub config : VmConfig

-- `u64::checked_add` and its like
unfoldable pub checked : ℕ → Option ℕ
checked n = if ltb n (2 ^ 64) then some n else none

unfoldable pub checked_sub : ℕ → ℕ → Option ℕ
checked_sub a b = if leb b a then some (a - b) else none

unfoldable pub checked_div : ℕ → ℕ → Option ℕ
checked_div a b = if b == 0 then none else some (a / b)

unfoldable pub checked_rem : ℕ → ℕ → Option ℕ
checked_rem a b = if b == 0 then none else some (a % b)

-- Two values popped, the right one first, and the result pushed.
unfoldable pub binary : (Value → Value → Outcome VmError Value) → Frame → Outcome VmError Frame
unfolding pop push
binary op f = do (r, f') ← pop f; (l, f'') ← pop f'; v ← op l r; ok (push v f'')

abbrev pub is_zero : Option ℕ → Bool
is_zero none = false
is_zero (some n) = n == 0

-- `Div` and `Mod`
unfoldable pub divide_with : (ℕ → ℕ → Option ℕ) → Value → Value → Outcome VmError Value
unfolding arith_op
divide_with op l r = reject_if (is_zero (as_u64 r)) division_by_zero >> arith_op l r op

-- `Eq` and `Ne`
unfoldable pub compare_with : (Bool → Bool) → Value → Value → Outcome VmError Value
compare_with answer l r =
    if is_linear l || is_linear r
    then linear_type_name l r >>= (λ name. err (eq_on_linear_type name))
    else ok (bool (answer (value_eq l r)))

-- `Lt`, `Le`, `Gt` and `Ge`
unfoldable pub order_with : (Bool → Bool) → Value → Value → Outcome VmError Value
unfolding cmp_values
order_with answer l r = cmp_values l r >>= λ b. ok (bool (answer b))

-- `And` and `Or`
unfoldable pub logic_with : (Bool → Bool → Bool) → Value → Value → Outcome VmError Value
unfolding boolean
logic_with op l r = do a ← boolean l; b ← boolean r; ok (bool (op a b))

-- The fields of a new struct, popped in reverse.
unfoldable pub pop_fields : List String → Frame → Outcome VmError (Fields × Frame)
unfolding pop
pop_fields [] f = ok (end, f)
pop_fields (n ∷ ns) f = do (rest, f') ← pop_fields ns f; (v, f'') ← pop f'; ok (field n v rest, f'')

-- The map that `UnpackStruct` collects the fields into: of a name that stands twice the last stays.
unfoldable pub find_last : String → Fields → Option Value
find_last name end = none
find_last name (field n v fs) = elim (find_last name fs) [
  | some w ↦ some w
  | none ↦ if text_eq n name then some v else none
]

unfoldable pub remove_name : String → Fields → Fields
remove_name name end = end
remove_name name (field n v fs) =
    let rest = remove_name name fs in if text_eq n name then rest else field n v rest

-- The fields pushed in reverse, each taken out of the map.
unfoldable pub unpack_fields :
    String → List String → Fields → Frame → Outcome VmError (Fields × Frame)
unfolding push find_last remove_name
unpack_fields type_ [] map f = ok (map, f)
unpack_fields type_ (n ∷ ns) map f = do
  (map', f') ← unpack_fields type_ ns map f
  v ← ok_or (find_last n map') (undefined_field type_ n)
  ok (remove_name n map', push v f')

unfoldable pub unpack_struct_value : List String → Value → Frame → Outcome VmError Frame
unfolding unpack_fields
unpack_struct_value names (struct type_ fields) f =
    unpack_fields type_ names fields f >>= λ p. ok p.1
unpack_struct_value names v f = err (type_error (unpack_expected_struct (type_name v)))

unfoldable pub unpack_tuple_value : ℕ → Value → Frame → Outcome VmError Frame
unfolding push_values values_count
unpack_tuple_value n (tuple values) f =
    guard (values_count values == n) (type_error (unpack_tuple_size n (values_count values)))
    >> ok (push_values values f)
unpack_tuple_value n v f = err (type_error (unpack_expected_tuple (type_name v)))

-- `GetField`
unfoldable pub field_value : String → Value → Outcome VmError Value
unfolding find_field
field_value name (struct type_ fields) = ok_or (find_field name fields) (undefined_field type_ name)
field_value name v = err (type_error (expected_struct (type_name v)))

-- `JumpIf` and `JumpIfNot`
unfoldable pub jump_when : Bool → ℤ → Frame → Outcome VmError Frame
unfolding pop boolean jump_by
jump_when expected offset f = do
  (v, f') ← pop f
  b ← boolean v
  if (b && expected) || (not b && not expected) then jump_by offset f' else ok f'

-- What is to be done after an instruction: the next one, the return, or a call.
pub data Next {ℓ} (S : Type ℓ) : Type ℓ where
  goes_on : Frame → Next S
  returns : Option Value → Next S
  calls_function : String → Module → Address → List Value → Frame → Next S
  calls_native : NativeFnEntry S → Frame → Next S

abbrev pub continue {ℓ} : {S : Type ℓ} → Outcome VmError Frame → Outcome VmError (Next S)
continue m = m >>= λ f. ok (goes_on f)

unfoldable pub find_dep : Address → List (Address × Module) → Option Module
find_dep a [] = none
find_dep a ((b, m) ∷ deps) = if b == a then some m else find_dep a deps

module _ {ℓ} {S : Type ℓ} (hex : HexCodec) (vm : Vm S) where
  unfoldable pub find_native : String → Option (NativeFnEntry S)
  find_native name = find (λ entry. text_eq entry.name name) vm.natives

  -- The qualified name of a struct that `NewStruct` makes.
  abbrev pub known : String → Option StructDef → Outcome VmError (Unit {0})
  known name none = err (undefined_struct name)
  known name (some s) = ok tt

  abbrev pub struct_in : Option Module → String → Option StructDef
  struct_in none name = none
  struct_in (some m) name = get_struct m name

  struct_name_as : Module → Address → String → Option (Address × String) → Outcome VmError String
  struct_name_as m a name (some (dep, short)) =
      known name (struct_in (find_dep dep vm.deps) short) >> ok name
  struct_name_as m a name none = known name (get_struct m name) >> ok (qualify hex a name)

  unfoldable pub struct_name : Module → Address → String → Outcome VmError String
  unfolding struct_name_as
  struct_name m a name = struct_name_as m a name (parse_module_ref hex name)

  unfoldable pub make_struct :
      Module → Address → String → List String → Frame → Outcome VmError Frame
  unfolding push struct_name pop_fields
  make_struct m a name names f = do
    qualified ← struct_name m a name
    (fields, f') ← pop_fields names f
    ok (push (struct qualified fields) f')

  -- A call of a function of a module, with as many arguments as it has parameters.
  abbrev pub request : String → Module → Address → Function → Frame → Outcome VmError (Next S)
  request name m a func f =
      pop_args (length func.params) f >>= λ p. ok (calls_function name m a p.0 p.1)

  abbrev pub call_dep : String → Address → String → Module → Frame → Outcome VmError (Next S)
  call_dep name dep short m f = do
    func ← ok_or (get_function m short) (undefined_function name)
    guard func.is_public (private_function name)
    request short m dep func f

  abbrev pub call_native : String → Frame → Option (NativeFnEntry S) → Outcome VmError (Next S)
  call_native name f none = err (undefined_function name)
  call_native name f (some entry) = ok (calls_native entry f)

  abbrev pub call_local :
      String → Module → Address → Frame → Option Function → Outcome VmError (Next S)
  call_local name m a f (some func) = request name m a func f
  call_local name m a f none = call_native name f (find_native name)

  abbrev pub call_as :
      String → Module → Address → Frame → Option (Address × String) → Outcome VmError (Next S)
  call_as name m a f (some (dep, short)) =
      ok_or (find_dep dep vm.deps) (undefined_function name) >>= λ d. call_dep name dep short d f
  call_as name m a f none = call_local name m a f (get_function m name)

  unfoldable pub call_by_name : String → Module → Address → Frame → Outcome VmError (Next S)
  call_by_name name m a f = call_as name m a f (parse_module_ref hex name)

  -- The instructions that stay in the frame; `exec` does not come here with the other two.
  unfoldable pub exec_frame : Module → Address → Instruction → Frame → Outcome VmError Frame
  exec_frame m a (push_bool b) f = ok (push (bool b) f)
  exec_frame m a (push_u64 n) f = ok (push (u64 n) f)
  exec_frame m a (push_address d) f = ok (push (address d) f)
  exec_frame m a (push_str s) f = ok (push (str s) f)
  exec_frame m a (load slot) f = load_slot slot f
  exec_frame m a (store slot) f = store_slot slot f
  exec_frame m a (load_field slot path) f = load_field_path slot path f
  exec_frame m a (store_field slot path) f = store_field_path slot path f
  exec_frame m a add f = binary (λ l r. arith_op l r (λ x y. checked (x + y))) f
  exec_frame m a sub f = binary (λ l r. arith_op l r checked_sub) f
  exec_frame m a mul f = binary (λ l r. arith_op l r (λ x y. checked (x * y))) f
  exec_frame m a div f = binary (divide_with checked_div) f
  exec_frame m a mod_ f = binary (divide_with checked_rem) f
  exec_frame m a eq f = binary (compare_with (λ b. b)) f
  exec_frame m a ne f = binary (compare_with not) f
  exec_frame m a lt f = binary (order_with (λ b. b)) f
  exec_frame m a le f = binary (λ l r. order_with not r l) f
  exec_frame m a gt f = binary (λ l r. order_with (λ b. b) r l) f
  exec_frame m a ge f = binary (order_with not) f
  exec_frame m a Instruction.not f =
      pop f >>= λ p. boolean p.0 >>= λ b. ok (push (bool (not b)) p.1)
  exec_frame m a and f = binary (logic_with ◌&&◌) f
  exec_frame m a or f = binary (logic_with ◌||◌) f
  exec_frame m a (new_struct name names) f = make_struct m a name names f
  exec_frame m a (get_field name) f = pop f >>= λ p. field_value name p.0 >>= λ v. ok (push v p.1)
  exec_frame m a (unpack_struct name names) f = pop f >>= λ p. unpack_struct_value names p.0 p.1
  exec_frame m a Instruction.pop f = pop f >>= λ p. ok p.1
  exec_frame m a dup f = peek f >>= λ v. ok (push v f)
  exec_frame m a (jump offset) f = jump_by offset f
  exec_frame m a (jump_if offset) f = jump_when true offset f
  exec_frame m a (jump_if_not offset) f = jump_when false offset f
  exec_frame m a (make_tuple n) f = pop_args n f >>= λ p. ok (push (tuple (to_values p.0)) p.1)
  exec_frame m a (unpack_tuple n) f = pop f >>= λ p. unpack_tuple_value n p.0 p.1
  exec_frame m a _ f = ok f

  unfoldable pub exec : Module → Address → Instruction → Frame → Outcome VmError (Next S)
  exec m a (call name) f = call_by_name name m a f
  exec m a return_ f = ok (returns (top f.stack))
  exec m a i f = continue (exec_frame m a i f)
