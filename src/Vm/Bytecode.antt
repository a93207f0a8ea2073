-- ===== src/Vm/Bytecode.antt =====
-- crates/meow-vm-types/src/bytecode.rs: the instruction set.
use meow.Base.{ℕ, String, Bool, List}
use meow.Base.Int.{ℤ}
use meow.Types.Primitives.{Address}

pub data Instruction : Type 0 where
  push_bool : Bool → Instruction
  push_u64 : ℕ → Instruction
  push_address : Address → Instruction
  push_str : String → Instruction
  load store : ℕ → Instruction
  load_field store_field : ℕ → List String → Instruction
  add sub mul div mod_ : Instruction
  eq ne lt le gt ge : Instruction
  not and or : Instruction
  new_struct : String → List String → Instruction
  get_field : String → Instruction
  unpack_struct : String → List String → Instruction
  pop dup : Instruction
  jump jump_if jump_if_not : ℤ → Instruction
  call : String → Instruction
  return_ : Instruction
  make_tuple unpack_tuple : ℕ → Instruction
