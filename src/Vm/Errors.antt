-- ===== src/Vm/Errors.antt =====
-- crates/meow-vm/src/error.rs: what a run of the machine fails with. Where the source formats a
-- message, the message is kept as its template and the arguments.
use meow.Base.{ℕ, String}
use meow.Base.Int.{ℤ}

pub data Message : Type 0 where
  expected_integer expected_bool expected_struct : String → Message
  load_field_expected_struct : ℕ → String → Message
  store_field_expected_struct : ℕ → String → Message
  store_field_empty_path : Message
  store_field_terminal : String → Message
  unpack_expected_struct unpack_expected_tuple : String → Message
  unpack_tuple_size : ℕ → ℕ → Message

pub data VmError : Type 0 where
  aborted : ℕ → String → VmError
  arithmetic_overflow : VmError
  arity_mismatch : String → ℕ → ℕ → VmError
  call_stack_overflow : ℕ → VmError
  division_by_zero : VmError
  eq_on_linear_type : String → VmError
  invalid_jump_target : ℕ → ℤ → VmError
  linear_field_overwrite : String → VmError
  native_error : String → VmError
  native_function_call_direct : String → VmError
  out_of_gas : ℕ → ℕ → VmError
  private_function : String → VmError
  slot_overwrite : ℕ → VmError
  stack_underflow : VmError
  too_many_dep_modules : ℕ → VmError
  type_error : Message → VmError
  undefined_field : String → String → VmError
  undefined_function undefined_struct : String → VmError
  undefined_variable : ℕ → VmError
  use_after_move : ℕ → VmError
