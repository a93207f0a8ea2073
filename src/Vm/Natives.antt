-- ===== src/Vm/Natives.antt =====
-- crates/meow-vm-types/src/natives.rs and the VM's part of config.rs. A native function of the source
-- is a closure that may change what it captures: here it takes the captured state and returns it.
use meow.Base.{ℕ, String, Bool, true, false, Option, none, some, List, [], ◌∷◌, ◌&&◌}
use meow.Vm.Types.{VmType, Value, bool}
use meow.Vm.Values.{as_u64, into_str, vm_type_eq}

pub data NativeParam : Type 0 where
  concrete : VmType → NativeParam
  any_struct local_struct : NativeParam

pub data NativeResult : Type 0 where
  returned : Option Value → NativeResult
  abort : ℕ → String → NativeResult
  error : String → NativeResult

pub record NativeSig : Type 0 where
  pub name : String
  pub params : List NativeParam
  pub return_type : Option VmType

-- `func` is `none` where the closure panics.
pub record NativeFnEntry {ℓ} (S : Type ℓ) : Type ℓ where
  pub name : String
  pub params : List NativeParam
  pub return_type : Option VmType
  pub gas_cost : ℕ
  pub func : List Value → S → Option NativeResult × S

-- `derive(PartialEq)` on parameter types, and on their lists
unfoldable pub param_eq : NativeParam → NativeParam → Bool
param_eq (concrete t) (concrete u) = vm_type_eq t u
param_eq any_struct any_struct = true
param_eq local_struct local_struct = true
param_eq _ _ = false

unfoldable pub params_eq : List NativeParam → List NativeParam → Bool
params_eq [] [] = true
params_eq (p ∷ ps) (q ∷ qs) = param_eq p q && params_eq ps qs
params_eq _ _ = false

abbrev pub meow_vm_abort_name : String
meow_vm_abort_name = "meow_vm_abort"

abbrev pub abort_params : List NativeParam
abort_params = concrete VmType.bool ∷ concrete VmType.u64 ∷ concrete VmType.str ∷ []

unfoldable pub meow_vm_abort_sig : NativeSig
meow_vm_abort_sig = record { name = meow_vm_abort_name; params = abort_params; return_type = none }

unfoldable pub builtin_natives : List NativeSig
builtin_natives = meow_vm_abort_sig ∷ []

-- `as_u64().unwrap_or(0)` and `into_str().unwrap_or_else(..)`
abbrev pub code_or_zero : Option ℕ → ℕ
code_or_zero none = 0
code_or_zero (some n) = n

abbrev pub message_or_aborted : Option String → String
message_or_aborted none = "aborted"
message_or_aborted (some s) = s

-- The closure of `meow_vm_abort_entry`. An index past the arguments panics.
unfoldable pub meow_vm_abort : List Value → Option NativeResult
meow_vm_abort [] = none
meow_vm_abort (bool true ∷ args) = some (returned none)
meow_vm_abort (bool false ∷ code ∷ message ∷ args) =
    some (abort (code_or_zero (as_u64 code)) (message_or_aborted (into_str message)))
meow_vm_abort (bool false ∷ args) = none
meow_vm_abort (v ∷ args) = some (error "meow_vm_abort: first argument must be bool")

unfoldable pub meow_vm_abort_entry {ℓ} : {S : Type ℓ} → NativeFnEntry S
meow_vm_abort_entry = record {
  name = meow_vm_abort_name;
  params = abort_params;
  return_type = none;
  gas_cost = 0;
  func = λ args s. (meow_vm_abort args, s);
}

pub record VmConfig : Type 0 where
  pub max_call_depth : ℕ
  pub max_dep_modules : ℕ
  pub enable_call_private_functions : Bool

unfoldable pub default_config : VmConfig
default_config = record {
  max_call_depth = 256;
  max_dep_modules = 64;
  enable_call_private_functions = false;
}
