-- ===== src/Tests/Machine.antt =====
-- A small module run by the machine, and the theorems on the machine applied to it.
use text.Mathlib.Text.{◌==◌ as text_eq}
use meow.Base.{
  ℕ, suc, ◌+◌, ◌*◌, ◌≤◌, ◌<◌, ◌≡◌, refl, true, false, none, some, [], ◌∷◌, Option, ok, err,
  if◌then◌else◌, Every, arith,
}
use meow.Base.Int.{pos}
use meow.Types.Primitives.{Bytes}
use meow.Vm.Types.{VmType, Value, u64, struct, end, field}
use meow.Vm.Bytecode.{load, add, call, return_, jump, push_u64, push_bool, push_str}
use meow.Vm.Module.{Module, Function, get_function}
use meow.Vm.Ref.{HexCodec, parse_module_ref, strip_at}
use meow.Vm.Values.{check_struct_qualified, is_linear, arith_op, as_u64, into_str}
use meow.Vm.Errors.{out_of_gas, aborted}
use meow.Vm.Gas.{charge, saturating_add, cost_of, new_meter, default_schedule, max_u64, remaining}
use meow.Vm.Natives.{meow_vm_abort, meow_vm_abort_entry, default_config}
use meow.Vm.Machine.Frame.{Frame, load_slot, jump_by, pop_args, pop, push}
use meow.Vm.Machine.Exec.{Vm, exec_frame, exec, find_native, call_by_name, binary, checked}
use meow.Vm.Machine.Run.{Machine, failed, call_vm, admit, enter, native_end}
use meow.Vm.Machine.Metered.{InLimit, Bounded, call_vm-Spends}
use meow.Vm.Machine.Paid.{Ended}
use meow.Vm.Machine.Ends.{call_vm-Ended}
use meow.Vm.Machine.Conserved.{Holds, frame_census}
use meow.Vm.Machine.Moves.{copies_linear, exec_frame-census}
use meow.Vm.Machine.Follows.{Short}

abbrev decode_one : Option Bytes
decode_one = some (1 ∷ [])

abbrev pub codec : HexCodec
codec = record {
  decode_hex = λ s. if text_eq s "0x01" then decode_one else none;
  encode_hex = λ b. "0x01";
}

-- twice(a) = add(a, a); spin loops; halt aborts.
abbrev twice : Function
twice = record {
  name = "twice";
  is_public = true;
  params = ("a", VmType.u64) ∷ [];
  return_type = some VmType.u64;
  local_count = 1;
  code = load 0 ∷ load 0 ∷ call "sum" ∷ return_ ∷ [];
}

abbrev sum : Function
sum = record {
  name = "sum";
  is_public = false;
  params = ("a", VmType.u64) ∷ ("b", VmType.u64) ∷ [];
  return_type = some VmType.u64;
  local_count = 2;
  code = load 0 ∷ load 1 ∷ add ∷ return_ ∷ [];
}

abbrev spin : Function
spin = record {
  name = "spin";
  is_public = true;
  params = [];
  return_type = none;
  local_count = 0;
  code = jump (pos 0) ∷ [];
}

abbrev halt : Function
halt = record {
  name = "halt";
  is_public = true;
  params = [];
  return_type = none;
  local_count = 0;
  code = push_bool false ∷ push_u64 7 ∷ push_str "no" ∷ call "meow_vm_abort" ∷ [];
}

abbrev sample : Module
sample = record {
  name = "sample";
  imports = [];
  structs = record { name = "C"; fields = []; is_public = true } ∷ [];
  functions = twice ∷ sum ∷ spin ∷ halt ∷ [];
}

abbrev vm : Vm (Unit {0})
vm = record {
  module_ = sample;
  module_addr = 1;
  deps = [];
  natives = meow_vm_abort_entry ∷ [];
  gas_schedule = default_schedule;
  config = default_config;
}

abbrev with_gas : ℕ → Machine (Unit {0})
with_gas n = record { gas = record { limit = n; spent = 0 }; state = tt }

runs :
    call_vm codec vm 20 "twice" (u64 3 ∷ []) (with_gas 100)
    ≡ (ok (some (u64 6)), record { gas = record { limit = 100; spent = 30 }; state = tt })
unfolding call_vm admit default_config find_native meow_vm_abort_entry get_function enter charge
    saturating_add cost_of default_schedule max_u64 exec exec_frame check_struct_qualified load_slot
    is_linear call_by_name parse_module_ref strip_at pop_args pop push binary arith_op checked
    as_u64 native_end
runs = refl

spins : (call_vm codec vm 20 "spin" [] (with_gas 5)).0 ≡ err (failed (out_of_gas 5 5))
unfolding call_vm admit default_config find_native meow_vm_abort_entry get_function enter charge
    saturating_add cost_of default_schedule max_u64 exec exec_frame jump_by
spins = refl

halts : (call_vm codec vm 20 "halt" [] (with_gas 50)).0 ≡ err (failed (aborted 7 "no"))
unfolding call_vm admit default_config find_native meow_vm_abort_entry get_function enter charge
    saturating_add cost_of default_schedule max_u64 exec exec_frame call_by_name parse_module_ref
    strip_at pop_args pop push native_end meow_vm_abort as_u64 into_str
halts = refl

within_limit : InLimit (new_meter 100)
unfolding new_meter max_u64
within_limit = (omega arith, omega arith)

abbrev start : Machine (Unit {0})
start = record { gas = new_meter 100; state = tt }

call_vm-Spends_example : Bounded (new_meter 100) (call_vm codec vm 20 "twice" (u64 3 ∷ []) start)
call_vm-Spends_example = call_vm-Spends codec vm 20 "twice" (u64 3 ∷ []) start within_limit

starts_low : (new_meter 100).limit < max_u64
unfolding new_meter max_u64
starts_low = omega arith

unspent : (new_meter 100).spent ≤ (new_meter 100).limit
unfolding new_meter
unspent = omega arith

jumps_cost : 1 ≤ default_schedule.jump
unfolding default_schedule
jumps_cost = omega arith

calls_cost : 1 ≤ default_schedule.call
unfolding default_schedule
calls_cost = omega arith

short : Short 4 sample
short = (omega arith, (omega arith, (omega arith, (omega arith, tt))))

call_vm-Ended_example :
    Ended (call_vm codec vm (suc (remaining (new_meter 100)) * suc 4) "spin" [] start)
call_vm-Ended_example =
    call_vm-Ended codec vm 4 tt jumps_cost calls_cost "spin" [] start unspent starts_low short

-- A coin in the first slot, moved onto the stack.
abbrev coin : Value
coin = struct "@0x01::C" (field "amount" (u64 5) end)

abbrev frame : Frame
frame = record { locals = some coin ∷ []; stack = []; pc = 1; code = load 0 ∷ [] }

exec_frame-census_example :
    Every
      (λ g.
        Holds
          (λ name. text_eq name "@0x01::C")
          (frame_census (λ name. text_eq name "@0x01::C") frame + 0)
          g)
      (exec_frame codec vm sample 1 (load 0) frame)
unfolding copies_linear
exec_frame-census_example =
    exec_frame-census (λ name. text_eq name "@0x01::C") codec vm sample 1 (load 0) frame refl
