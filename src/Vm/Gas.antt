-- ===== src/Vm/Gas.antt =====
-- crates/meow-vm/src/gas_meter.rs and gas_schedule.rs: the meter and the cost of an instruction.
use meow.Base.{ℕ, ◌+◌, ◌-◌, ◌*◌, ◌%◌, ◌^◌, min, ltb, if◌then◌else◌, Outcome, ok, err, length}
use meow.Vm.Errors.{VmError, out_of_gas}
use meow.Vm.Bytecode.{
  Instruction, push_bool, push_u64, push_address, push_str, load, store, load_field, store_field,
  add, sub, mul, div, mod_, eq, ne, lt, le, gt, ge, not, and, or, new_struct, get_field,
  unpack_struct, pop, dup, jump, jump_if, jump_if_not, call, return_, make_tuple, unpack_tuple,
}

pub record GasMeter : Type 0 where
  pub limit : ℕ
  pub spent : ℕ

unfoldable pub new_meter : ℕ → GasMeter
new_meter limit = record { limit = limit; spent = 0 }

unfoldable pub max_u64 : ℕ
max_u64 = 2 ^ 64 - 1

unfoldable pub unlimited : GasMeter
unlimited = new_meter max_u64

-- `saturating_add`
unfoldable pub saturating_add : ℕ → ℕ → ℕ
saturating_add a b = min (a + b) max_u64

unfoldable pub charge : ℕ → GasMeter → Outcome VmError (Unit {0}) × GasMeter
charge cost g =
    if ltb g.limit (saturating_add g.spent cost)
    then (err (out_of_gas g.limit g.limit), record g { spent = g.limit })
    else (ok tt, record g { spent = saturating_add g.spent cost })

-- `saturating_sub` is subtraction on ℕ.
unfoldable pub remaining : GasMeter → ℕ
remaining g = g.limit - g.spent

pub record GasSchedule : Type 0 where
  pub push_primitive : ℕ
  pub push_str : ℕ
  pub load_store : ℕ
  pub load_field : ℕ
  pub store_field : ℕ
  pub add_sub_mul : ℕ
  pub div : ℕ
  pub mod_ : ℕ
  pub compare : ℕ
  pub logic : ℕ
  pub new_struct_base : ℕ
  pub new_struct_per_field : ℕ
  pub get_field : ℕ
  pub stack : ℕ
  pub jump : ℕ
  pub call : ℕ
  pub return_ : ℕ
  pub make_tuple_per_element : ℕ
  pub unpack_tuple_per_element : ℕ
  pub unpack_struct_per_field : ℕ

unfoldable pub default_schedule : GasSchedule
default_schedule = record {
  push_primitive = 1;
  push_str = 2;
  load_store = 1;
  load_field = 2;
  store_field = 5;
  add_sub_mul = 2;
  div = 5;
  mod_ = 5;
  compare = 2;
  logic = 1;
  new_struct_base = 10;
  new_struct_per_field = 2;
  get_field = 3;
  stack = 1;
  jump = 2;
  call = 20;
  return_ = 2;
  make_tuple_per_element = 1;
  unpack_tuple_per_element = 1;
  unpack_struct_per_field = 1;
}

-- Products and sums of `u64` wrap around in a release build.
abbrev pub wrap : ℕ → ℕ
wrap n = n % 2 ^ 64

unfoldable pub cost_of : GasSchedule → Instruction → ℕ
cost_of s (push_bool b) = s.push_primitive
cost_of s (push_u64 n) = s.push_primitive
cost_of s (push_address a) = s.push_primitive
cost_of s (push_str t) = s.push_str
cost_of s (load slot) = s.load_store
cost_of s (store slot) = s.load_store
cost_of s (load_field slot path) = s.load_field
cost_of s (store_field slot path) = s.store_field
cost_of s add = s.add_sub_mul
cost_of s sub = s.add_sub_mul
cost_of s mul = s.add_sub_mul
cost_of s div = s.div
cost_of s mod_ = s.mod_
cost_of s eq = s.compare
cost_of s ne = s.compare
cost_of s lt = s.compare
cost_of s le = s.compare
cost_of s gt = s.compare
cost_of s ge = s.compare
cost_of s not = s.logic
cost_of s and = s.logic
cost_of s or = s.logic
cost_of s (new_struct name fields) =
    wrap (s.new_struct_base + wrap (length fields * s.new_struct_per_field))
cost_of s (get_field f) = s.get_field
cost_of s (unpack_struct name fields) = wrap (length fields * s.unpack_struct_per_field)
cost_of s pop = s.stack
cost_of s dup = s.stack
cost_of s (jump offset) = s.jump
cost_of s (jump_if offset) = s.jump
cost_of s (jump_if_not offset) = s.jump
cost_of s (call f) = s.call
cost_of s return_ = s.return_
cost_of s (make_tuple n) = wrap (n * s.make_tuple_per_element)
cost_of s (unpack_tuple n) = wrap (n * s.unpack_tuple_per_element)
